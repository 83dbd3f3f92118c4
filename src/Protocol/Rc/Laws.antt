-- ===== src/Protocol/Rc/Laws.antt =====
-- crates/protocol/src/data/enum/rc.rs: the value of a response code that was read off a u32.
use Prim.Native.Nat.{bit_and, bit_or}
use tpm2_library.Common.{
  ℕ, ◌-◌, ◌^◌, ◌<◌, false, not, ◌==◌, ok, map_err, map_err-ok, reject_if, reject_if-ok, >>=-ok,
  Bool-cases, inl, inr, ◌≡◌, ap, ◌∙◌, subst, arith,
}
use tpm2_library.Protocol.Error.{TpmResult, invalid_rc}
use tpm2_library.Protocol.Enum
use tpm2_library.Protocol.Rc.{
  TpmRc, value, add_index, try_from, try_from_fmt0, try_from_fmt1, rc_fmt1_error_mask,
  rc_fmt1_valid_mask,
}
use tpm2_library.Protocol.Rc.Base.{TpmRcBase, discriminant, variants, rc_fmt1, rc_warn}
use tpm2_library.Protocol.Rc.Lookup.{TpmRcBase-try_from_iff}
use tpm2_library.Protocol.Rc.Bits.{index_of, index_of-rejoins, reserved_clear}

found :
    (raw key : ℕ) (b : TpmRcBase)
    → map_err (λ e. invalid_rc 0 raw) (Enum.try_from 4 discriminant variants key) ≡ ok b
    → discriminant b ≡ key
found raw key b e = (TpmRcBase-try_from_iff key b).0 (map_err-ok (λ e. invalid_rc 0 raw) _ e)

value_fmt0 : (raw : ℕ) (rc : TpmRc) → try_from_fmt0 raw ≡ ok rc → value rc ≡ raw
unfolding try_from_fmt0 value
value_fmt0 raw rc e =
    let (b, e', last) =
      >>=-ok (map_err (λ e. invalid_rc 0 raw) (Enum.try_from 4 discriminant variants raw)) _ e in
    let same = found raw raw b e' in
    elim (Bool-cases (bit_and raw rc_warn == rc_warn)) [
      | inl yes_warn ↦ subst (λ r. value r ≡ raw) (ok_inj (rw yes_warn at last)) same
      | inr no_warn ↦ subst (λ r. value r ≡ raw) (ok_inj (rw no_warn at last)) same
    ]
  where
    ok_inj : {a b : TpmRc} → ◌≡◌ {A = TpmResult TpmRc} (ok a) (ok b) → a ≡ b
    ok_inj h = cc

value_fmt1 :
    (raw : ℕ) (rc : TpmRc)
    → raw < 2 ^ 32
    → (bit_and raw rc_fmt1 == 0) ≡ false
    → try_from_fmt1 raw ≡ ok rc
    → value rc ≡ raw
unfolding try_from_fmt1 value
value_fmt1 raw rc h selected e =
    let (done, clear, e1) =
      >>=-ok
        (reject_if (not (bit_and raw (2 ^ 32 - 1 - rc_fmt1_valid_mask) == 0)) (invalid_rc 0 raw)) _
        e in
    let (b, base_ok, e2) =
      >>=-ok
        (map_err (λ e. invalid_rc 0 raw)
          (Enum.try_from 4 discriminant variants (bit_or rc_fmt1 (bit_and raw rc_fmt1_error_mask))))
        _ e1 in
    let (i, index_ok, e3) = >>=-ok (index_of raw) _ e2 in
    let small = reserved_clear raw h (zero_of _ (reject_if-ok _ (invalid_rc 0 raw) clear)) in
    subst (λ r. value r ≡ raw) (ok_inj e3)
      (ap (λ d. add_index d i) (found raw _ b base_ok)
        ∙ index_of-rejoins raw i small selected index_ok)
  where
    ok_inj : {a b : TpmRc} → ◌≡◌ {A = TpmResult TpmRc} (ok a) (ok b) → a ≡ b
    ok_inj h = cc

    zero_of : (n : ℕ) → not (n == 0) ≡ false → n ≡ 0
    zero_of n h = ground arith

-- Decoding loses nothing: the response code that is read off a u32 has that u32 as its value.
pub value-try_from : (raw : ℕ) (rc : TpmRc) → raw < 2 ^ 32 → try_from raw ≡ ok rc → value rc ≡ raw
unfolding try_from
value-try_from raw rc h e = elim (Bool-cases (bit_and raw rc_fmt1 == 0)) [
  | inl clear ↦ value_fmt0 raw rc (rw clear at e)
  | inr selected ↦ value_fmt1 raw rc h selected (rw selected at e)
]
