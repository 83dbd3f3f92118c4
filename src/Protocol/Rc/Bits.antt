-- ===== src/Protocol/Rc/Bits.antt =====
-- Facts on the masks of crates/protocol/src/data/enum/rc.rs, for words that are not literals: the
-- reserved bits of a Format-1 code, and its fields by evaluation over the remaining twelve bits.
use Prim.Native.Nat.{bit_and, bit_or, digits, bit_and-bitwise, min}
use tpm2_library.Common.{
  ℕ, zero, suc, ◌+◌, ◌-◌, ◌*◌, ◌/◌, ◌%◌, ◌^◌, ◌≤◌, ◌<◌, Bool, true, false, ◌&&◌, ◌||◌, ◌==◌, ==_iff,
  not, ◌≡◌, refl, arith, sym, ◌∙◌, subst, ok, err, Option,
}
use tpm2_library.Protocol.Error.{TpmResult, invalid_rc}
use tpm2_library.Protocol.Rc.{
  TpmRcIndex, add_index, read_index, rc_p_bit, rc_n_shift, rc_n_mask, rc_fmt1_error_mask,
  rc_fmt1_valid_mask,
}
use tpm2_library.Protocol.Rc.Base.{rc_fmt1}

-- Every number below `n` passes the test.
unfoldable pub all_below : ℕ → (ℕ → Bool) → Bool
all_below zero test = true
all_below (suc n) test = all_below n test && test n

pub all_below-at :
    (n : ℕ) (test : ℕ → Bool) (k : ℕ) → all_below n test ≡ true → k < n → test k ≡ true
unfolding all_below
all_below-at zero test k passed h = absurd (omega arith)
all_below-at (suc n) test k passed h = ground (arith, all_below-at n test k)

-- The number whose `k` lowest bits are set, and no other.
abbrev ones : ℕ → ℕ
ones zero = 0
ones (suc k) = ones k * 2 + 1

abbrev shift_up : ℕ → ℕ → ℕ
shift_up zero b = b
shift_up (suc k) b = shift_up k b * 2

abbrev conj : ℕ → ℕ → ℕ → ℕ
conj fuel a b = digits (λ b. zero) min fuel a b

ones_clear : (j fuel a : ℕ) → a ≤ fuel → a ≤ ones j → conj fuel a (ones j) ≡ 0 → a ≡ 0
ones_clear zero fuel a f h e = omega arith
ones_clear (suc j) fuel zero f h e = refl
ones_clear (suc j) zero (suc a) f h e = absurd (omega arith)
ones_clear (suc j) (suc fuel) (suc a) f h e =
    let half : (ones j * 2 + 1) / 2 ≡ ones j = omega arith in
    let odd : (ones j * 2 + 1) % 2 ≡ 1 = omega arith in
    let e' =
      subst (λ b. conj fuel (suc a / 2) b * 2 + min (suc a % 2) ((ones j * 2 + 1) % 2) ≡ 0) half
        e in
    omega (arith, e', ones_clear j fuel (suc a / 2) (omega arith) (omega arith) (omega (arith, e')))

shifted_clear :
    (j k fuel a : ℕ)
    → a ≤ fuel
    → a ≤ shift_up k (ones j) + ones k
    → conj fuel a (shift_up k (ones j)) ≡ 0
    → a ≤ ones k
shifted_clear j zero fuel a f h e = omega (arith, ones_clear j fuel a f (omega arith) e)
shifted_clear j (suc k) fuel zero f h e = omega arith
shifted_clear j (suc k) zero (suc a) f h e = absurd (omega arith)
shifted_clear j (suc k) (suc fuel) (suc a) f h e =
    let half : shift_up k (ones j) * 2 / 2 ≡ shift_up k (ones j) = omega arith in
    let e' =
      subst (λ b. conj fuel (suc a / 2) b * 2 + min (suc a % 2) (shift_up k (ones j) * 2 % 2) ≡ 0)
        half e in
    omega
      (arith, shifted_clear j k fuel (suc a / 2) (omega arith) (omega arith) (omega (arith, e')))

-- A word without the reserved bits lies in the twelve lowest.
pub reserved_clear :
    (raw : ℕ) → raw < 2 ^ 32 → bit_and raw (2 ^ 32 - 1 - rc_fmt1_valid_mask) ≡ 0 → raw < 4096
reserved_clear raw h e = omega (
  arith,
  shifted_clear 20 12 raw raw (omega arith) (omega arith)
      (sym (bit_and-bitwise raw (shift_up 12 (ones 20))) ∙ e),
)

-- The fields of a code below 4096, put together again.
abbrev pub rejoins : ℕ → TpmResult (Option TpmRcIndex) → Bool
rejoins raw (err e) = true
rejoins raw (ok i) = add_index (bit_or rc_fmt1 (bit_and raw rc_fmt1_error_mask)) i == raw

abbrev pub index_of : ℕ → TpmResult (Option TpmRcIndex)
index_of raw =
    read_index (invalid_rc 0 raw) (not (bit_and raw rc_p_bit == 0))
      (bit_and (raw / 2 ^ rc_n_shift) rc_n_mask)

unfoldable rejoins_at : ℕ → Bool
rejoins_at raw = bit_and raw rc_fmt1 == 0 || rejoins raw (index_of raw)

rejoins_table : all_below 4096 rejoins_at ≡ true
unfolding all_below rejoins_at read_index add_index
rejoins_table = refl

pub index_of-rejoins :
    (raw : ℕ) (i : Option TpmRcIndex)
    → raw < 4096
    → (bit_and raw rc_fmt1 == 0) ≡ false
    → index_of raw ≡ ok i
    → add_index (bit_or rc_fmt1 (bit_and raw rc_fmt1_error_mask)) i ≡ raw
unfolding rejoins_at
index_of-rejoins raw i h selected e =
    let checked = all_below-at 4096 rejoins_at raw rejoins_table h in
    (==_iff _ raw).0 (rw (selected, e) at checked)
