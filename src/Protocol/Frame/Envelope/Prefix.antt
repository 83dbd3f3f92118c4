-- ===== src/Protocol/Frame/Envelope/Prefix.antt =====
-- crates/protocol/src/frame/wire.rs: frames whose size field is their length, and how a buffer is
-- split where the first of them ends.
use tpm2_library.Common.{
  ℕ, ◌≤◌, ◌<◌, ◌^◌, List, [], ◌++◌, length, take, drop, ok, ◌≡◌, refl, ap, ◌∙◌, arith,
  length-append, take-append_eq, drop-append_eq, append_assoc, length-take, take-append-drop,
}
use tpm2_library.Protocol.Integer.{from_be_bytes, to_be_bytes}
use tpm2_library.Protocol.Integer.Bytes.{length-to_be_bytes, from_be_bytes-to_be_bytes}
use tpm2_library.Protocol.Frame.{tpm_header_size}
use tpm2_library.Protocol.Frame.Envelope.{read_u32, size_offset, validate_frame_size, split_frame}

-- A frame of two bytes of tag, a 32-bit size and the rest, with its length as the size.
pub record IsFramed (frame : List ℕ) : Type 0 where
  pub tag : List ℕ
  pub body : List ℕ
  pub two : length tag ≡ 2
  pub form : frame ≡ tag ++ (to_be_bytes 4 (length frame) ++ body)
  pub header : tpm_header_size ≤ length frame
  pub small : length frame < 2 ^ 32

read_size_field :
    (frame rest : List ℕ) → IsFramed frame → read_u32 (frame ++ rest) size_offset ≡ length frame
unfolding read_u32
read_size_field frame rest f =
    let size = to_be_bytes 4 (length frame) in
    let four = length-to_be_bytes 4 (length frame) in
    let whole : frame ++ rest ≡ f.tag ++ (size ++ (f.body ++ rest)) =
      ap (λ t. t ++ rest) f.form
      ∙ append_assoc f.tag (size ++ f.body) rest
      ∙ ap (λ t. f.tag ++ t) (append_assoc size f.body rest) in
    ap (λ t. from_be_bytes (take 4 (drop 2 t))) whole
    ∙ ap (λ t. from_be_bytes (take 4 t)) (drop-append_eq 2 f.tag (size ++ (f.body ++ rest)) f.two)
    ∙ ap from_be_bytes (take-append_eq 4 size (f.body ++ rest) four)
    ∙ from_be_bytes-to_be_bytes 4 (length frame) (omega (arith, f.small))

-- A frame whose size field is its length is split off the front of a buffer exactly, whatever
-- follows it, and alone it passes as a whole frame.
pub split_frame-framed :
    (frame rest : List ℕ)
    → IsFramed frame
    → (split_frame (frame ++ rest) ≡ ok (frame, rest)) × (validate_frame_size (frame ++ []) ≡ ok tt)
unfolding split_frame validate_frame_size
split_frame-framed frame rest f = (
  ground (
    arith,
    f.header,
    read_size_field frame rest f,
    length-append frame rest,
    take-append_eq (length frame) frame rest refl,
    drop-append_eq (length frame) frame rest refl,
  ),
  ground (arith, f.header, read_size_field frame [] f, length-append frame []),
)

-- Whatever is split off the front is the front of the buffer, of at least ten bytes, and its size
-- field is its length.
pub split_frame_sound :
    (buf frame rest : List ℕ)
    → split_frame buf ≡ ok (frame, rest)
    → (buf ≡ frame ++ rest)
      × (tpm_header_size ≤ length frame)
      × (read_u32 buf size_offset ≡ length frame)
unfolding split_frame
split_frame_sound buf frame rest e =
    let size = read_u32 buf size_offset in
    ground (arith, e, take-append-drop size buf, length-take size buf)
