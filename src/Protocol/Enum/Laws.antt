-- ===== src/Protocol/Enum/Laws.antt =====
-- crates/protocol/src/macro/enum.rs: the conversion that `tpm_enum!` makes and the discriminants.
use tpm2_library.Common.{
  ℕ, ◌^◌, ◌<◌, ◌++◌, List, [], ◌∷◌, some, ok, ok_or, ◌≡◌, ◌↔◌, refl, ap, subst, arith, >>=-ok,
  ok-pair, sym, All, ◌∙◌,
}
use tpm2_library.Protocol.Error.{variant_not_available}
use tpm2_library.Protocol.Enum.{find, try_from, marshal, unmarshal}
use tpm2_library.Protocol.Writer.Append.{Emits}
use tpm2_library.Protocol.Integer
use tpm2_library.Protocol.Integer.{to_be_bytes}
use tpm2_library.Protocol.Integer.Bytes.{IsByte}
use tpm2_library.Protocol.Integer.Laws.{
  marshal_new-Emits, unmarshal-to_be_bytes, value-new, unmarshal_sound,
}

module _ {V : Type 0} (n : ℕ) (discriminant : V → ℕ) where
  find_sound :
      (vs : List V) (raw : ℕ) (v : V) → find n discriminant vs raw ≡ some v → discriminant v ≡ raw
  unfolding find
  find_sound [] raw v e = cc
  find_sound (w ∷ vs) raw v e = ground (arith, find_sound vs raw v)

  module _ (variants : List V)
      (finds : (v : V) → find n discriminant variants (discriminant v) ≡ some v) where
    pub try_from_iff :
        (raw : ℕ) (v : V) → (try_from n discriminant variants raw ≡ ok v) ↔ (discriminant v ≡ raw)
    unfolding try_from
    try_from_iff raw v = (
      λ e. find_sound variants raw v (ground arith),
      λ e.
          subst (λ r. try_from n discriminant variants r ≡ ok v) e
            (ap (ok_or (variant_not_available 0 (discriminant v))) (finds v)),
    )

    -- A variant whose discriminant fits `n` bytes is written as those bytes and read back.
    pub variant-roundtrip :
        (v : V) (rest : List ℕ)
        → discriminant v < 256 ^ n
        → Emits (marshal n discriminant v) (to_be_bytes n (discriminant v))
          × (unmarshal n discriminant variants (to_be_bytes n (discriminant v) ++ rest)
              ≡ ok (v, rest))
    unfolding marshal unmarshal
    variant-roundtrip v rest h = (
      marshal_new-Emits n (discriminant v),
      rw (unmarshal-to_be_bytes n (discriminant v) rest)
          (rw (value-new n (discriminant v) h) (rw ((try_from_iff (discriminant v) v).1 refl))),
    )

    -- Where the conversion is inverse to the discriminants, a variant that is read off a buffer of
    -- bytes is the one whose discriminant, in `n` big-endian bytes, stands at the front.
    pub variant_canonical :
        (buf : List ℕ) (v : V) (rest : List ℕ)
        → All IsByte buf
        → unmarshal n discriminant variants buf ≡ ok (v, rest)
        → buf ≡ to_be_bytes n (discriminant v) ++ rest
    unfolding unmarshal
    variant_canonical buf v rest h e =
        let (read, int_ok, e1) = >>=-ok (Integer.unmarshal n buf) _ e in
        let (w, found, e2) =
          >>=-ok (try_from n discriminant variants (Integer.value n read.0)) _ e1 in
        let (same, tail) = ok-pair e2 in
        let (split, small) = unmarshal_sound n buf read.0 read.1 h int_ok in
        let number = (try_from_iff (Integer.value n read.0) w).0 found in
        subst (λ t. buf ≡ to_be_bytes n (discriminant v) ++ t) tail
          (split ∙ ap (λ k. to_be_bytes n k ++ read.1) (sym number ∙ ap discriminant same))
