-- ===== src/Protocol/Error/Rebase.antt =====
-- How the offset of an error moves when it is passed up through nested parsers.
use tpm2_library.Common.{ℕ, List, [], ◌∷◌, ◌≡◌, refl, arith}
use tpm2_library.Common.Nat.{saturating_add}
use tpm2_library.Protocol.Error.{
  TpmError, offset, rebase, buffer_overflow, integer_too_large, invalid_boolean, invalid_cc,
  invalid_magic_number, invalid_rc, invalid_tag, too_many_bytes, too_many_items, trailing_data,
  unexpected_end, variant_not_available,
}

-- What an error says besides its offset: the place of its variant in the declaration, and the
-- numbers of that variant.
unfoldable pub payload : TpmError → ℕ × List ℕ
payload (buffer_overflow o needed available) = (0, needed ∷ (available ∷ []))
payload (integer_too_large o value) = (1, value ∷ [])
payload (invalid_boolean o value) = (2, value ∷ [])
payload (invalid_cc o value) = (3, value ∷ [])
payload (invalid_magic_number o value) = (4, value ∷ [])
payload (invalid_rc o value) = (5, value ∷ [])
payload (invalid_tag o value) = (6, value ∷ [])
payload (too_many_bytes o limit actual) = (7, limit ∷ (actual ∷ []))
payload (too_many_items o limit actual) = (8, limit ∷ (actual ∷ []))
payload (trailing_data o actual) = (9, actual ∷ [])
payload (unexpected_end o needed available) = (10, needed ∷ (available ∷ []))
payload (variant_not_available o value) = (11, value ∷ [])

payload-rebase : (e : TpmError) (delta : ℕ) → payload (rebase e delta) ≡ payload e
unfolding payload rebase
payload-rebase (buffer_overflow o needed available) delta = refl
payload-rebase (integer_too_large o value) delta = refl
payload-rebase (invalid_boolean o value) delta = refl
payload-rebase (invalid_cc o value) delta = refl
payload-rebase (invalid_magic_number o value) delta = refl
payload-rebase (invalid_rc o value) delta = refl
payload-rebase (invalid_tag o value) delta = refl
payload-rebase (too_many_bytes o limit actual) delta = refl
payload-rebase (too_many_items o limit actual) delta = refl
payload-rebase (trailing_data o actual) delta = refl
payload-rebase (unexpected_end o needed available) delta = refl
payload-rebase (variant_not_available o value) delta = refl

-- Rebasing keeps the variant of an error and its numbers, moves the offset by `inner`, up to the
-- largest usize, and two nested parsers that rebase one after the other give the error that a
-- single rebase by the (saturated) sum gives.
pub rebase_nested :
    (e : TpmError) (inner outer : ℕ)
    → (payload (rebase e inner) ≡ payload e)
      × (offset (rebase e inner) ≡ saturating_add (offset e) inner)
      × (rebase (rebase e inner) outer ≡ rebase e (saturating_add inner outer))
unfolding offset rebase
rebase_nested e inner outer = (payload-rebase e inner, ground arith, ground arith)
