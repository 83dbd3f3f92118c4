-- ===== src/Protocol/Buffer/Laws.antt =====
-- crates/protocol/src/basic/buffer.rs: `TpmBuffer` and the laws of the codec traits.
use tpm2_library.Common.{
  ℕ, List, ◌++◌, length, All, ok, ◌≡◌, ap, sym, ◌∙◌, subst, arith, All-prefix, All-suffix, >>=-ok,
  ◌>>=◌, ok-pair,
}
use tpm2_library.Protocol.Codec.{Codec, IsCodec}
use tpm2_library.Protocol.Writer.Append.{Emits, write_bytes-Emits, >>-Emits}
use mathlib.Core.Path.{ap₂}
use tpm2_library.Protocol.Integer.{to_be_bytes}
use tpm2_library.Protocol.Integer.Bytes.{IsByte}
use tpm2_library.Protocol.Integer.Laws.{marshal_new-Emits}
use tpm2_library.Protocol.Buffer.{TpmBuffer, max_size, len, marshal, unmarshal, deref, try_from}
use tpm2_library.Protocol.Buffer.Tpm2b
use tpm2_library.Protocol.Buffer.Tpm2b.Framing.{
  framed, length-framed, payload-framed, cast_prefix-framed, cast_prefix_sound,
}
use tpm2_library.Protocol.Buffer.Refine.{holding, Fits, deref-holding, try_from-room}

module _ (capacity : ℕ) where
  abbrev pub codec : Codec (TpmBuffer capacity)
  codec = record {
    max_size = max_size capacity;
    len = len capacity;
    marshal = marshal capacity;
    unmarshal = unmarshal capacity;
  }

  -- A buffer that the operations can make: it holds some byte string within the limits.
  pub record IsWf (b : TpmBuffer capacity) : Type 0 where
    pub content : List ℕ
    pub fits : Fits capacity content
    pub are_bytes : All IsByte content
    pub holds : b ≡ holding capacity content

  deref-content : (b : TpmBuffer capacity) (w : IsWf b) → deref capacity b ≡ w.content
  deref-content b w = ap (deref capacity) w.holds ∙ deref-holding capacity w.content w.fits

  abbrev pub encode : TpmBuffer capacity → List ℕ
  encode b = framed (deref capacity b)

  encode-content : (b : TpmBuffer capacity) (w : IsWf b) → encode b ≡ framed w.content
  encode-content b w = ap framed (deref-content b w)

  size-deref : (b : TpmBuffer capacity) → IsWf b → b.size ≡ length (deref capacity b)
  size-deref b w = ap (λ x. x.size) w.holds ∙ ap length (sym (deref-content b w))

  pub marshal-Emits : (b : TpmBuffer capacity) → IsWf b → Emits (marshal capacity b) (encode b)
  unfolding marshal
  marshal-Emits b w =
      subst (λ n. Emits (marshal capacity b) (to_be_bytes 2 n ++ deref capacity b)) (size-deref b w)
        (>>-Emits _ _ _ _ (marshal_new-Emits 2 b.size) (write_bytes-Emits (deref capacity b)))

  pub unmarshal-encode :
      (b : TpmBuffer capacity) (rest : List ℕ)
      → IsWf b
      → unmarshal capacity (encode b ++ rest) ≡ ok (b, rest)
  unfolding unmarshal
  unmarshal-encode b rest w =
      rw (encode-content b w, cast_prefix-framed capacity w.content rest w.fits.0 w.fits.1)
        (rw (payload-framed w.content, try_from-room capacity w.content w.fits)
          (ap (λ x. ok (x, rest)) (sym w.holds)))

  pub unmarshal_sound :
      (buf : List ℕ) (b : TpmBuffer capacity) (rest : List ℕ)
      → All IsByte buf
      → unmarshal capacity buf ≡ ok (b, rest)
      → IsWf b × (buf ≡ encode b ++ rest)
  unfolding unmarshal
  unmarshal_sound buf b rest h e =
      let (read, cast, e') = >>=-ok (Tpm2b.cast_prefix capacity buf) _ e in
      let (xs, view, split, small, short) = cast_prefix_sound capacity buf read.0 read.1 h cast in
      let made =
        ap (try_from capacity) (ap Tpm2b.payload view ∙ payload-framed xs)
        ∙ try_from-room capacity xs (small, short) in
      let (holds, same) = ok-pair (sym (ap (λ r. r >>= λ b'. ok (b', read.1)) made) ∙ e') in
      let bytes = All-prefix IsByte read.0 read.1 (subst (All IsByte) split h) in
      let w : IsWf b = record {
        content = xs;
        fits = (small, short);
        are_bytes =
            All-suffix IsByte (to_be_bytes 2 (length xs)) xs (subst (All IsByte) view bytes);
        holds = sym holds;
      } in
      (w, split ∙ ap₂ (λ x y. x ++ y) (view ∙ sym (encode-content b w)) same)

  pub TpmBuffer-IsCodec : IsCodec codec encode IsWf
  unfolding len
  TpmBuffer-IsCodec = record {
    len_encode = λ b w. omega (arith, length-framed (deref capacity b), size-deref b w);
    len_bound = λ b w. omega (arith, ap (λ x. x.size) w.holds, w.fits.0);
    emits = marshal-Emits;
    reads = unmarshal-encode;
    sound = unmarshal_sound;
  }
