-- ===== src/Common/Results.antt =====
-- Rust's `Result`, with the error type as a parameter, and its `?` as a `do` block.
use mathlib.Core.Path.{◌≡◌, refl}
use mathlib.Core.Logic.{◌⊎◌, inl, inr}
use mathlib.Core.Bool.{Bool, true, false}
use mathlib.Core.Option.{Option, none, some}

pub data Result {ℓ κ} (E : Type ℓ) (A : Type κ) : Type (ℓ ⊔ κ) where
  ok : A → Result E A
  err : E → Result E A

module _ {ℓ κ ι} {E : Type ℓ} {A : Type κ} {B : Type ι} where
  infixl 5 ◌>>=◌
  abbrev pub ◌>>=◌ : Result E A → (A → Result E B) → Result E B
  ok a >>= f = f a
  err e >>= f = err e

  -- A chain that succeeds went through a success of its first part.
  pub >>=-ok :
      (first : Result E A) (next : A → Result E B) {last : B}
      → (first >>= next) ≡ ok last
      → (x : A) × (first ≡ ok x) × (next x ≡ ok last)
  >>=-ok (ok x) next e = (x, refl, e)
  >>=-ok (err reason) next e = cc

module _ {ℓ κ} {E : Type ℓ} {B : Type κ} where
  infixl 5 ◌>>◌
  abbrev pub ◌>>◌ : Result E (Unit {0}) → Result E B → Result E B
  m >> k = m >>= λ _. k

module _ {ℓ κ} {E : Type ℓ} {A : Type κ} where
  abbrev pub map_err {ι} : {F : Type ι} → (E → F) → Result E A → Result F A
  map_err g (ok a) = ok a
  map_err g (err e) = err (g e)

  pub map_err-ok {ι} :
      {F : Type ι} (g : E → F) (r : Result E A) {a : A} → map_err g r ≡ ok a → r ≡ ok a
  map_err-ok g (ok x) e = cc
  map_err-ok g (err reason) e = cc

  abbrev pub ok_or : E → Option A → Result E A
  ok_or e none = err e
  ok_or e (some a) = ok a

  pub Result-cases : (r : Result E A) → ((a : A) × (r ≡ ok a)) ⊎ ((e : E) × (r ≡ err e))
  Result-cases (ok a) = inl (a, refl)
  Result-cases (err e) = inr (e, refl)

pub ok-pair {ℓ κ ι} :
    {E : Type ℓ} {A : Type κ} {B : Type ι} {a c : A} {b d : B}
    → ◌≡◌ {A = Result E (A × B)} (ok (a, b)) (ok (c, d))
    → (a ≡ c) × (b ≡ d)
ok-pair e = (cc, cc)

module _ {ℓ} {E : Type ℓ} where
  -- `if b { return Err(e); }`
  abbrev pub reject_if : Bool → E → Result E (Unit {0})
  reject_if true e = err e
  reject_if false e = ok tt

  pub reject_if-ok : (b : Bool) (e : E) {done : Unit {0}} → reject_if b e ≡ ok done → b ≡ false
  reject_if-ok true e h = cc
  reject_if-ok false e h = refl
