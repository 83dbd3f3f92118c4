-- ===== src/Protocol/Buffer/Tpm2b.antt =====
-- crates/protocol/src/basic/buffer.rs: `Tpm2b<CAPACITY>`, the zero-copy view. The view is its
-- bytes; the mutable casts make the same checks.
pub mod Framing
use tpm2_library.Common.{
  ℕ, ◌+◌, ◌-◌, List, take, drop, length, Bool, ltb, ◌==◌, if◌then◌else◌, ok, err, ok_or, ◌>>=◌,
  ◌>>◌, reject_if,
}
use tpm2_library.Common.Nat.{checked_add}
use tpm2_library.Protocol.Error.{
  TpmResult, unexpected_end, too_many_bytes, trailing_data, integer_too_large,
}
use tpm2_library.Protocol.WireBytes.{split_at}
use tpm2_library.Protocol.Integer.{from_be_bytes}

abbrev pub size_len : ℕ
size_len = 2

-- `u16::from_be_bytes([buf[0], buf[1]])`; each call has checked that the two bytes are there.
unfoldable pub read_size : List ℕ → ℕ
read_size buf = from_be_bytes (take 2 buf)

unfoldable pub size : List ℕ → ℕ
unfolding read_size
size view = read_size view

-- The method `data`.
unfoldable pub payload : List ℕ → List ℕ
payload view = drop size_len view

unfoldable pub is_empty : List ℕ → Bool
unfolding size
is_empty view = size view == 0

module _ (capacity : ℕ) where
  unfoldable pub validate_prefix : List ℕ → TpmResult ℕ
  validate_prefix buf = do
    reject_if (ltb (length buf) size_len) (unexpected_end 0 size_len (length buf))
    let payload_len = read_size buf
    reject_if (ltb capacity payload_len) (too_many_bytes 0 capacity payload_len)
    wire_len ← ok_or (integer_too_large 0 payload_len) (checked_add size_len payload_len)
    reject_if (ltb (length buf) wire_len)
        (unexpected_end size_len payload_len (length buf - size_len))
    ok wire_len

  unfoldable pub validate : List ℕ → TpmResult (Unit {0})
  validate buf = do
    wire_len ← validate_prefix buf
    reject_if (ltb wire_len (length buf)) (trailing_data wire_len (length buf - wire_len))

  unfoldable pub cast : List ℕ → TpmResult (List ℕ)
  cast buf = do validate buf; ok buf

  unfoldable pub cast_prefix : List ℕ → TpmResult (List ℕ × List ℕ)
  cast_prefix buf = do wire_len ← validate_prefix buf; ok (split_at wire_len buf)
