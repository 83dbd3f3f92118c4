-- ===== src/Protocol/WireBytes.antt =====
-- crates/protocol/src/lib.rs: `TpmWireBytes<N>`, a view of exactly `n` bytes. A view is the bytes that
-- it borrows; the mutable casts make the same checks and give the same view.
pub mod Split
use tpm2_library.Common.{
  ℕ, ◌+◌, ◌-◌, List, [], length, take, drop, ok, reject_if, err, ltb, if◌then◌else◌, ◌>>◌,
}
use tpm2_library.Protocol.Error.{TpmResult, unexpected_end, trailing_data}

-- The slice operations of Rust; `split_at` panics past the end, and every call checks the length.
abbrev pub split_at : ℕ → List ℕ → List ℕ × List ℕ
split_at n buf = (take n buf, drop n buf)

unfoldable pub validate_prefix : ℕ → List ℕ → TpmResult (Unit {0})
validate_prefix n buf = reject_if (ltb (length buf) n) (unexpected_end 0 n (length buf))

unfoldable pub validate : ℕ → List ℕ → TpmResult (Unit {0})
unfolding validate_prefix
validate n buf = do
  validate_prefix n buf
  reject_if (ltb n (length buf)) (trailing_data n (length buf - n))

unfoldable pub cast : ℕ → List ℕ → TpmResult (List ℕ)
unfolding validate
cast n buf = do validate n buf; ok buf

unfoldable pub cast_prefix : ℕ → List ℕ → TpmResult (List ℕ × List ℕ)
unfolding validate_prefix
cast_prefix n buf = do validate_prefix n buf; ok (split_at n buf)
