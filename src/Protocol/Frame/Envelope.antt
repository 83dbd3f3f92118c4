-- ===== src/Protocol/Frame/Envelope.antt =====
-- crates/protocol/src/frame/wire.rs: where a frame ends, by the size field of its header. The reads
-- index the buffer; every call has checked the length.
pub mod Prefix
use tpm2_library.Common.{ℕ, ◌+◌, ◌-◌, List, length, take, drop, ltb, ok, ◌>>=◌, ◌>>◌, reject_if}
use tpm2_library.Protocol.Error.{TpmResult, unexpected_end, trailing_data}
use tpm2_library.Protocol.WireBytes.{split_at}
use tpm2_library.Protocol.Integer.{from_be_bytes}
use tpm2_library.Protocol.Frame.{tpm_header_size}

abbrev pub size_offset : ℕ
size_offset = 2

unfoldable pub read_u32 : List ℕ → ℕ → ℕ
read_u32 buf offset = from_be_bytes (take 4 (drop offset buf))

unfoldable pub frame_prefix_size : List ℕ → TpmResult ℕ
frame_prefix_size buf = do
  reject_if (ltb (length buf) tpm_header_size) (unexpected_end 0 tpm_header_size (length buf))
  let size = read_u32 buf size_offset
  reject_if (ltb size tpm_header_size) (unexpected_end size_offset tpm_header_size size)
  reject_if (ltb (length buf) size) (unexpected_end (length buf) (size - length buf) 0)
  ok size

unfoldable pub validate_frame_size : List ℕ → TpmResult (Unit {0})
unfolding frame_prefix_size
validate_frame_size buf = do
  size ← frame_prefix_size buf
  reject_if (ltb size (length buf)) (trailing_data size (length buf - size))

-- The front of `cast_prefix` of commands and responses: the first frame and the bytes behind it.
unfoldable pub split_frame : List ℕ → TpmResult (List ℕ × List ℕ)
unfolding frame_prefix_size
split_frame buf = do frame_len ← frame_prefix_size buf; ok (split_at frame_len buf)
