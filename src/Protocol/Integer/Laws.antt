-- ===== src/Protocol/Integer/Laws.antt =====
-- crates/protocol/src/basic/integer.rs: `TpmInt<T, N>` and the laws of the codec traits.
use tpm2_library.Common.{
  ℕ, ◌^◌, ◌<◌, List, ◌++◌, length, All, ok, ◌≡◌, refl, ap, ◌∙◌, arith, All-prefix, >>=-ok, sym,
  subst, ◌↔◌,
}
use tpm2_library.Protocol.Codec.{Codec, IsCodec}
use tpm2_library.Protocol.WireBytes
use tpm2_library.Protocol.WireBytes.Split.{cast_prefix_iff}
use tpm2_library.Protocol.Writer.Append.{Emits, write_bytes-Emits}
use tpm2_library.Protocol.Integer.{
  TpmInt, new, value, len, marshal, unmarshal, to_be_bytes, from_be_bytes,
}
use tpm2_library.Protocol.Integer.Bytes.{
  IsByte, length-to_be_bytes, to_be_bytes-IsByte, from_be_bytes-to_be_bytes,
  to_be_bytes-from_be_bytes, from_be_bytes-lt,
}

pub record IsWf {n : ℕ} (i : TpmInt n) : Type 0 where
  pub width : length i.bytes ≡ n
  pub are_bytes : All IsByte i.bytes

module _ (n : ℕ) where
  abbrev pub codec : Codec (TpmInt n)
  codec = record { max_size = n; len = len n; marshal = marshal n; unmarshal = unmarshal n }

  -- An integer of `n` bytes reads exactly as its `n` bytes.
  pub unmarshal_iff :
      (buf : List ℕ) (i : TpmInt n) (rest : List ℕ)
      → (unmarshal n buf ≡ ok (i, rest)) ↔ ((length i.bytes ≡ n) × (buf ≡ i.bytes ++ rest))
  unfolding unmarshal
  unmarshal_iff buf i rest = (
    λ e.
        let (read, cast, eq) = >>=-ok (WireBytes.cast_prefix n buf) _ e in
        let split = (cast_prefix_iff n buf read.0 read.1).0 cast in ground (arith, split, eq),
    λ h. rw ((cast_prefix_iff n buf i.bytes rest).1 h),
  )

  pub marshal_new-Emits : (v : ℕ) → Emits (marshal n (new n v)) (to_be_bytes n v)
  unfolding marshal new
  marshal_new-Emits v = write_bytes-Emits (to_be_bytes n v)

  pub TpmInt-IsCodec : IsCodec codec (λ i. i.bytes) IsWf
  unfolding len marshal
  TpmInt-IsCodec = record {
    len_encode = λ i w. omega (arith, w.width);
    len_bound = λ i w. omega arith;
    emits = λ i w. write_bytes-Emits i.bytes;
    reads = λ i rest w. (unmarshal_iff (i.bytes ++ rest) i rest).1 (w.width, refl);
    sound = λ buf i rest h e.
        let (width, split) = (unmarshal_iff buf i rest).0 e in
        (
          record {
            width = width;
            are_bytes = All-prefix IsByte i.bytes rest (subst (All IsByte) split h);
          },
          split,
        );
  }

  pub new-IsWf : (v : ℕ) → IsWf (new n v)
  unfolding new
  new-IsWf v = record { width = length-to_be_bytes n v; are_bytes = to_be_bytes-IsByte n v }

  -- A value that fits `n` bytes is what the integer made from it holds.
  pub value-new : (v : ℕ) → v < 256 ^ n → value n (new n v) ≡ v
  unfolding value new
  value-new v h = from_be_bytes-to_be_bytes n v h

  pub new-value : (i : TpmInt n) → IsWf i → new n (value n i) ≡ i
  unfolding value new
  new-value i w =
      ap (λ bs. record { bytes = bs })
        (ap (λ k. to_be_bytes k (from_be_bytes i.bytes)) (sym w.width)
          ∙ to_be_bytes-from_be_bytes i.bytes w.are_bytes)

  pub unmarshal-to_be_bytes :
      (v : ℕ) (rest : List ℕ) → unmarshal n (to_be_bytes n v ++ rest) ≡ ok (new n v, rest)
  unfolding new
  unmarshal-to_be_bytes v rest =
      (unmarshal_iff (to_be_bytes n v ++ rest) (new n v) rest).1 (length-to_be_bytes n v, refl)

  -- The bytes that were read are those of the value.
  pub unmarshal_sound :
      (buf : List ℕ) (i : TpmInt n) (rest : List ℕ)
      → All IsByte buf
      → unmarshal n buf ≡ ok (i, rest)
      → (buf ≡ to_be_bytes n (value n i) ++ rest) × (value n i < 256 ^ n)
  unfolding value
  unmarshal_sound buf i rest h e =
      let (width, split) = (unmarshal_iff buf i rest).0 e in
      let bytes = All-prefix IsByte i.bytes rest (subst (All IsByte) split h) in
      let same : to_be_bytes n (from_be_bytes i.bytes) ≡ i.bytes =
        ap (λ k. to_be_bytes k (from_be_bytes i.bytes)) (sym width)
        ∙ to_be_bytes-from_be_bytes i.bytes bytes in
      (
        split ∙ ap (λ bs. bs ++ rest) (sym same),
        subst (λ k. from_be_bytes i.bytes < 256 ^ k) width (from_be_bytes-lt i.bytes bytes),
      )
