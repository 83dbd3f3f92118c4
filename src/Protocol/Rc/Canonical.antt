-- ===== src/Protocol/Rc/Canonical.antt =====
-- crates/protocol/src/data/enum/rc.rs: the response codes that are read back from their value.
use Prim.Native.Nat.{bit_and, bit_or}
use tpm2_library.Common.{
  ℕ, ◌+◌, ◌-◌, ◌*◌, ◌^◌, ◌<◌, ◌≤◌, ◌/◌, ◌%◌, Bool, true, false, not, ◌&&◌, ◌==◌, ==_iff,
  if◌then◌else◌, ok, ◌≡◌, refl, sym, ◌∙◌, subst, arith, Option, some, none,
}
use tpm2_library.Protocol.Error.{TpmError, invalid_rc}
use tpm2_library.Protocol.Rc.{
  TpmRc, TpmRcIndex, fmt0, fmt1, warn, parameter, handle, session, value, add_index, is_parameter,
  number, try_from, try_from_fmt0, try_from_fmt1, rc_p_bit, rc_n_shift, rc_n_mask,
  rc_fmt1_error_mask, rc_fmt1_valid_mask, read_index,
}
use tpm2_library.Protocol.Rc.Base.{TpmRcBase, discriminant, rc_fmt1, rc_warn}
use tpm2_library.Protocol.Rc.Lookup.{TpmRcBase-try_from_iff}
use tpm2_library.Protocol.Rc.Bits.{all_below, all_below-at}

-- A parameter is numbered from 1 to 15, a handle from 1 to 7 and a session from 0 to 7.
abbrev pub IsIndex : TpmRcIndex → Type 0
IsIndex (parameter n) = (1 ≤ n) × (n ≤ 15)
IsIndex (handle n) = (1 ≤ n) × (n ≤ 7)
IsIndex (session n) = (0 ≤ n) × (n ≤ 7)

abbrev pub IsIndexOrNone : Option TpmRcIndex → Type 0
IsIndexOrNone none = Unit
IsIndexOrNone (some i) = IsIndex i

-- The base has the form that its constructor stands for.
abbrev pub IsCanonical : TpmRc → Type 0
IsCanonical (fmt0 b) =
    ((bit_and (discriminant b) rc_fmt1 == 0) ≡ true)
    × ((bit_and (discriminant b) rc_warn == rc_warn) ≡ false)
IsCanonical (warn b) =
    ((bit_and (discriminant b) rc_fmt1 == 0) ≡ true)
    × ((bit_and (discriminant b) rc_warn == rc_warn) ≡ true)
IsCanonical (fmt1 f) =
    (e : ℕ) × (e < 64) × (discriminant f.base ≡ bit_or rc_fmt1 e) × IsIndexOrNone f.index

-- The word with error number `e`, number `n` and `P` bit `p`.
abbrev packed : Bool → ℕ → ℕ → ℕ
packed p e n =
    bit_or (if p then bit_or (bit_or rc_fmt1 e) rc_p_bit else bit_or rc_fmt1 e)
      (bit_and n rc_n_mask * 2 ^ rc_n_shift)

abbrev p_bit_set : ℕ → Bool
p_bit_set raw = not (bit_and raw rc_p_bit == 0)

abbrev has_fields : Bool → ℕ → ℕ → ℕ → Bool
has_fields p e n raw =
    not (bit_and raw rc_fmt1 == 0)
    && (bit_and raw (2 ^ 32 - 1 - rc_fmt1_valid_mask) == 0)
    && (bit_or rc_fmt1 (bit_and raw rc_fmt1_error_mask) == bit_or rc_fmt1 e)
    && (if p then p_bit_set raw else not (p_bit_set raw))
    && (bit_and (raw / 2 ^ rc_n_shift) rc_n_mask == n)

unfoldable fields_at : ℕ → Bool
fields_at k =
    has_fields true (k / 16) (k % 16) (packed true (k / 16) (k % 16))
    && has_fields false (k / 16) (k % 16) (packed false (k / 16) (k % 16))

fields_table : all_below 1024 fields_at ≡ true
unfolding all_below fields_at
fields_table = refl

&&-both : (a b : Bool) → (a && b) ≡ true → (a ≡ true) × (b ≡ true)
&&-both true b h = (refl, h)
&&-both false b h = cc

packed-has_fields : (p : Bool) (e n : ℕ) → e < 64 → n < 16 → has_fields p e n (packed p e n) ≡ true
unfolding fields_at
packed-has_fields p e n h k =
    let quotient : (e * 16 + n) / 16 ≡ e = omega arith in
    let remainder : (e * 16 + n) % 16 ≡ n = omega arith in
    let at_both : fields_at (e * 16 + n) ≡ true =
      all_below-at 1024 fields_at (e * 16 + n) fields_table (omega arith) in
    pick p (rw (quotient, remainder) at at_both)
  where
    pick :
        (p : Bool)
        → (has_fields true e n (packed true e n) && has_fields false e n (packed false e n)) ≡ true
        → has_fields p e n (packed p e n) ≡ true
    pick true both = (&&-both _ _ both).0
    pick false both = (&&-both _ _ both).1

-- What the tests of `try_from` see on a packed word.
record Fields (p : Bool) (e n raw : ℕ) : Type 0 where
  selected : (bit_and raw rc_fmt1 == 0) ≡ false
  unreserved : (bit_and raw (2 ^ 32 - 1 - rc_fmt1_valid_mask) == 0) ≡ true
  error_number : bit_or rc_fmt1 (bit_and raw rc_fmt1_error_mask) ≡ bit_or rc_fmt1 e
  p_bit : not (bit_and raw rc_p_bit == 0) ≡ p
  n_field : bit_and (raw / 2 ^ rc_n_shift) rc_n_mask ≡ n

Fields-of : (p : Bool) (e n raw : ℕ) → has_fields p e n raw ≡ true → Fields p e n raw
Fields-of true e n raw h = record {
  selected = ground (arith, h);
  unreserved = ground (arith, h);
  error_number = ground (arith, h);
  p_bit = ground (arith, h);
  n_field = ground (arith, h);
}
Fields-of false e n raw h = record {
  selected = ground (arith, h);
  unreserved = ground (arith, h);
  error_number = ground (arith, h);
  p_bit = ground (arith, h);
  n_field = ground (arith, h);
}

packed_decodes : (p : Bool) (e n : ℕ) → e < 64 → n < 16 → Fields p e n (packed p e n)
packed_decodes p e n h k = Fields-of p e n (packed p e n) (packed-has_fields p e n h k)

-- A word with these fields decodes to its base and its index.
decodes :
    (p : Bool) (e n raw : ℕ) (b : TpmRcBase) (i : Option TpmRcIndex)
    → Fields p e n raw
    → discriminant b ≡ bit_or rc_fmt1 e
    → read_index (invalid_rc 0 raw) p n ≡ ok i
    → try_from raw ≡ ok (fmt1 (record { base = b; index = i }))
unfolding try_from try_from_fmt1
decodes p e n raw b i f d r =
    rw (f.selected, f.unreserved, f.error_number)
      (rw ((TpmRcBase-try_from_iff (bit_or rc_fmt1 e) b).1 d) (rw (f.p_bit, f.n_field, r)))

index_fields :
    (invalid : TpmError) (i : TpmRcIndex)
    → IsIndex i
    → (number i < 16) × (read_index invalid (is_parameter i) (number i) ≡ ok (some i))
unfolding read_index
index_fields invalid (parameter n) h = ground arith
index_fields invalid (handle n) h = ground arith
index_fields invalid (session n) h = ground arith

no_index_packs : (e : ℕ) → e < 64 → packed false e 0 ≡ bit_or rc_fmt1 e
unfolding all_below
no_index_packs e h = (==_iff _ _).0 (all_below-at 64 test e table h)
  where
    test : ℕ → Bool
    test e = packed false e 0 == bit_or rc_fmt1 e

    table : all_below 64 test ≡ true
    table = refl

fmt1-value :
    (b : TpmRcBase) (i : Option TpmRcIndex) (e : ℕ)
    → e < 64
    → discriminant b ≡ bit_or rc_fmt1 e
    → IsIndexOrNone i
    → try_from (add_index (discriminant b) i) ≡ ok (fmt1 (record { base = b; index = i }))
unfolding add_index read_index
fmt1-value b none e h d is_index =
    subst (λ raw. try_from raw ≡ ok (fmt1 (record { base = b; index = none })))
      (no_index_packs e h ∙ sym d)
      (decodes false e 0 (packed false e 0) b none (packed_decodes false e 0 h (omega arith)) d
        refl)
fmt1-value b (some i) e h d is_index =
    let small = (index_fields (invalid_rc 0 0) i is_index).0 in
    let raw = packed (is_parameter i) e (number i) in
    let f = packed_decodes (is_parameter i) e (number i) h small in
    subst (λ v. try_from (add_index v (some i)) ≡ ok (fmt1 (record { base = b; index = some i })))
      (sym d)
      (decodes (is_parameter i) e (number i) raw b (some i) f d
        (index_fields (invalid_rc 0 raw) i is_index).1)

-- Encoding loses nothing: a response code whose base has the form of its constructor, and whose
-- index is in range, decodes from its value to itself.
pub try_from-value : (rc : TpmRc) → IsCanonical rc → try_from (value rc) ≡ ok rc
unfolding try_from try_from_fmt0 value
try_from-value (fmt0 b) (clear, plain) =
    rw clear (rw ((TpmRcBase-try_from_iff (discriminant b) b).1 refl) (rw plain))
try_from-value (warn b) (clear, warned) =
    rw clear (rw ((TpmRcBase-try_from_iff (discriminant b) b).1 refl) (rw warned))
try_from-value (fmt1 f) (e, h, d, is_index) = fmt1-value f.base f.index e h d is_index
