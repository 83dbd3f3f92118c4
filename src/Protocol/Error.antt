-- ===== src/Protocol/Error.antt =====
-- crates/protocol/src/error.rs: the error of the marshaling code. Every variant has the byte
-- offset of the failure, and `rebase` shifts it when a nested parser's error is passed up.
pub mod Rebase
use tpm2_library.Common.{ℕ, min, List, length, Result}
use tpm2_library.Common.Nat.{saturating_add}

-- The fields stand in the order of the source.
pub data TpmError : Type 0 where
  buffer_overflow : ℕ → ℕ → ℕ → TpmError
  integer_too_large : ℕ → ℕ → TpmError
  invalid_boolean : ℕ → ℕ → TpmError
  invalid_cc : ℕ → ℕ → TpmError
  invalid_magic_number : ℕ → ℕ → TpmError
  invalid_rc : ℕ → ℕ → TpmError
  invalid_tag : ℕ → ℕ → TpmError
  too_many_bytes : ℕ → ℕ → ℕ → TpmError
  too_many_items : ℕ → ℕ → ℕ → TpmError
  trailing_data : ℕ → ℕ → TpmError
  unexpected_end : ℕ → ℕ → ℕ → TpmError
  variant_not_available : ℕ → ℕ → TpmError

abbrev pub TpmResult {ℓ} : Type ℓ → Type ℓ
TpmResult A = Result TpmError A

unfoldable pub offset : TpmError → ℕ
offset (buffer_overflow o needed available) = o
offset (integer_too_large o value) = o
offset (invalid_boolean o value) = o
offset (invalid_cc o value) = o
offset (invalid_magic_number o value) = o
offset (invalid_rc o value) = o
offset (invalid_tag o value) = o
offset (too_many_bytes o limit actual) = o
offset (too_many_items o limit actual) = o
offset (trailing_data o actual) = o
offset (unexpected_end o needed available) = o
offset (variant_not_available o value) = o

unfoldable pub rebase : TpmError → ℕ → TpmError
rebase (buffer_overflow o needed available) delta =
    buffer_overflow (saturating_add o delta) needed available
rebase (integer_too_large o value) delta = integer_too_large (saturating_add o delta) value
rebase (invalid_boolean o value) delta = invalid_boolean (saturating_add o delta) value
rebase (invalid_cc o value) delta = invalid_cc (saturating_add o delta) value
rebase (invalid_magic_number o value) delta = invalid_magic_number (saturating_add o delta) value
rebase (invalid_rc o value) delta = invalid_rc (saturating_add o delta) value
rebase (invalid_tag o value) delta = invalid_tag (saturating_add o delta) value
rebase (too_many_bytes o limit actual) delta = too_many_bytes (saturating_add o delta) limit actual
rebase (too_many_items o limit actual) delta = too_many_items (saturating_add o delta) limit actual
rebase (trailing_data o actual) delta = trailing_data (saturating_add o delta) actual
rebase (unexpected_end o needed available) delta =
    unexpected_end (saturating_add o delta) needed available
rebase (variant_not_available o value) delta = variant_not_available (saturating_add o delta) value

-- A borrowed slice of a larger buffer: where it starts there, and its bytes.
pub record Slice : Type 0 where
  pub start : ℕ
  pub bytes : List ℕ

-- The two addresses differ by the start of the slice inside `base`.
unfoldable pub tpm_offset : List ℕ → Slice → ℕ
tpm_offset base cursor = min cursor.start (length base)
