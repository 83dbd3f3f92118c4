-- ===== src/Protocol/Integer/Bytes.antt =====
-- Big-endian bytes and the numbers they stand for.
use tpm2_library.Common.{
  ℕ, zero, suc, ◌+◌, ◌*◌, ◌/◌, ◌%◌, ◌^◌, ◌<◌, List, [], ◌∷◌, ◌++◌, length, ◌≤◌, All-append,
  length-append, append-nil, append_assoc, ◌∙◌, All, ◌≡◌, refl, ap, arith,
}
use tpm2_library.Protocol.Integer.{from_be_bytes, from_digits, to_be_bytes}
use native.Mathlib.Nat.{pow-suc, add-zero, zero-add}

abbrev pub IsByte : ℕ → Type 0
IsByte b = b < 256

pub length-to_be_bytes : (n v : ℕ) → length (to_be_bytes n v) ≡ n
unfolding to_be_bytes
length-to_be_bytes zero v = refl
length-to_be_bytes (suc n) v =
    omega (
      arith,
      length-append (to_be_bytes n (v / 256)) (v % 256 ∷ []),
      length-to_be_bytes n (v / 256),
    )

pub to_be_bytes-IsByte : (n v : ℕ) → All IsByte (to_be_bytes n v)
unfolding to_be_bytes
to_be_bytes-IsByte zero v = tt
to_be_bytes-IsByte (suc n) v =
    All-append IsByte (to_be_bytes n (v / 256)) (v % 256 ∷ []) (to_be_bytes-IsByte n (v / 256))
      (omega arith)

digit_fits : (b p : ℕ) → b < 256 → (b + 1) * p ≤ 256 * p
digit_fits b p h = grind arith

from_digits-lt :
    (bs : List ℕ) (acc : ℕ) → All IsByte bs → from_digits acc bs + 1 ≤ (acc + 1) * 256 ^ length bs
unfolding from_digits
from_digits-lt [] acc h = omega arith
from_digits-lt (b ∷ bs) acc (hb, h) = omega (
  arith,
  from_digits-lt bs (acc * 256 + b) h,
  digit_fits b (256 ^ length bs) hb,
  ap (λ (p : ℕ). acc * p) (pow-suc 256 (length bs)),
  pow-suc 256 (length bs),
)

pub from_be_bytes-lt : (bs : List ℕ) → All IsByte bs → from_be_bytes bs < 256 ^ length bs
unfolding from_be_bytes
from_be_bytes-lt bs h = omega (arith, from_digits-lt bs 0 h)

from_digits-append :
    (xs ys : List ℕ) (acc : ℕ) → from_digits acc (xs ++ ys) ≡ from_digits (from_digits acc xs) ys
unfolding from_digits
from_digits-append [] ys acc = refl
from_digits-append (x ∷ xs) ys acc = from_digits-append xs ys (acc * 256 + x)

pub from_be_bytes-to_be_bytes : (n v : ℕ) → v < 256 ^ n → from_be_bytes (to_be_bytes n v) ≡ v
unfolding from_be_bytes to_be_bytes
from_be_bytes-to_be_bytes zero v h = omega arith
from_be_bytes-to_be_bytes (suc n) v h =
    from_digits-append (to_be_bytes n (v / 256)) (v % 256 ∷ []) 0
    ∙ omega (arith, from_be_bytes-to_be_bytes n (v / 256) (omega (arith, pow-suc 256 n)))

high_digits : (acc b : ℕ) → b < 256 → (acc * 256 + b) / 256 ≡ acc
high_digits acc b h = omega arith

low_digit : (acc b : ℕ) → b < 256 → (acc * 256 + b) % 256 ≡ b
low_digit acc b h = omega arith

to_be_bytes-from_digits :
    (bs : List ℕ) (k acc : ℕ)
    → All IsByte bs
    → to_be_bytes (k + length bs) (from_digits acc bs) ≡ to_be_bytes k acc ++ bs
unfolding from_digits to_be_bytes
to_be_bytes-from_digits [] k acc h = rw (add-zero, append-nil)
to_be_bytes-from_digits (b ∷ bs) k acc (hb, h) =
    let shift : k + length (b ∷ bs) ≡ suc k + length bs = omega arith in
    ap (λ n. to_be_bytes n (from_digits (acc * 256 + b) bs)) shift
    ∙ to_be_bytes-from_digits bs (suc k) (acc * 256 + b) h
    ∙ rw (high_digits acc b hb, low_digit acc b hb) (append_assoc (to_be_bytes k acc) (b ∷ []) bs)

pub to_be_bytes-from_be_bytes :
    (bs : List ℕ) → All IsByte bs → to_be_bytes (length bs) (from_be_bytes bs) ≡ bs
unfolding from_be_bytes to_be_bytes
to_be_bytes-from_be_bytes bs h = rw zero-add at (to_be_bytes-from_digits bs 0 0 h)
