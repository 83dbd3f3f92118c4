-- ===== src/Protocol/Frame/Sizes.antt =====
-- The size computations of crates/protocol/src/frame/marshal.rs, on a frame whose operations agree
-- with each other.
use tpm2_library.Common.{
  ℕ, ◌+◌, ◌*◌, ◌^◌, ◌<◌, List, [], ◌∷◌, length, All, ok, ◌≡◌, ap, ◌∙◌, arith, length-append, lt→ltb,
}
use tpm2_library.Common.Nat.{usize_mod}
use tpm2_library.Protocol.Codec.{Codec, IsCodec}
use tpm2_library.Protocol.Writer.Append.{Emits, encode_each}
use tpm2_library.Protocol.Integer
use tpm2_library.Protocol.Integer.{TpmInt}
use tpm2_library.Protocol.Frame.{TpmFrame, body_areas, checked_add, size_field, sessions_len}

-- What the traits promise of a body: the bytes of each area, with four bytes for each handle, and a
-- length that counts both.
pub record IsFrame (f : TpmFrame) (handle_bytes parameter_bytes : List ℕ) : Type 0 where
  pub handles_emit : Emits f.marshal_handles handle_bytes
  pub parameters_emit : Emits f.marshal_parameters parameter_bytes
  pub handle_count : length handle_bytes ≡ f.handles * 4
  pub total : f.len ≡ length handle_bytes + length parameter_bytes

pub checked_add-fits : (a b offset : ℕ) → a + b < usize_mod → checked_add a b offset ≡ ok (a + b)
unfolding checked_add
checked_add-fits a b offset h = rw (lt→ltb (a + b) usize_mod h)

pub size_field-fits :
    (size offset blamed : ℕ)
    → size < 2 ^ 32
    → size_field size offset blamed ≡ ok (Integer.new 4 size)
unfolding size_field Integer.try_from
size_field-fits size offset blamed h = rw (lt→ltb size (2 ^ 32) h)

pub body_areas-sizes :
    (f : TpmFrame) (hs ps : List ℕ) (offset : ℕ)
    → IsFrame f hs ps
    → length hs < usize_mod
    → body_areas f offset ≡ ok (length hs, length ps)
unfolding body_areas
body_areas-sizes f hs ps offset is_frame h = ground (arith, is_frame.handle_count, is_frame.total)

module _ {S : Type 0} (c : Codec S) (encode : S → List ℕ) (IsWf : S → Type 0)
    (lawful : IsCodec c encode IsWf) where
  pub sessions_len-fits :
      (total : ℕ) (ss : List S) (offset : ℕ)
      → All IsWf ss
      → total + length (encode_each encode ss) < usize_mod
      → sessions_len c total ss offset ≡ ok (total + length (encode_each encode ss))
  unfolding sessions_len
  sessions_len-fits total [] offset v h = ap ok (omega arith)
  sessions_len-fits total (s ∷ ss) offset (vs, v) h =
      let size = lawful.len_encode s vs in
      let joined = length-append (encode s) (encode_each encode ss) in
      rw (checked_add-fits total (c.len s) offset (omega (arith, size, joined))) (
        sessions_len-fits (total + c.len s) ss offset v (omega (arith, size, joined))
        ∙ ap ok (omega (arith, size, joined)))

  pub sessions_len-total :
      (ss : List S) (offset : ℕ)
      → All IsWf ss
      → length (encode_each encode ss) < usize_mod
      → sessions_len c 0 ss offset ≡ ok (length (encode_each encode ss))
  sessions_len-total ss offset v h =
      sessions_len-fits 0 ss offset v (omega arith) ∙ ap ok (omega arith)
