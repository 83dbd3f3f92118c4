-- ===== src/Protocol/Slots.antt =====
-- The storage `[MaybeUninit<T>; CAPACITY]` of crates/protocol/src/basic/buffer.rs and list.rs: a
-- cell that has not been written is `none`.
use tpm2_library.Common.{
  ℕ, zero, suc, ◌+◌, ◌≤◌, ◌<◌, List, [], ◌∷◌, ◌++◌, length, take, set, replicate, Option, none,
  some, ◌≡◌, refl, ap, sym, ◌∙◌, arith, length-append, append_assoc, append-nil,
}

module _ {A : Type 0} where
  abbrev pub uninit : ℕ → List (Option A)
  uninit n = replicate n none

  -- `for (dest, src) in cells[start..end].iter_mut().zip(slice) { dest.write(*src); }`
  unfoldable pub write_each : List (Option A) → ℕ → List A → List (Option A)
  write_each cells start [] = cells
  write_each cells start (x ∷ xs) = write_each (set cells start (some x)) (suc start) xs

  -- The slice that `from_raw_parts` makes of the cells. To read an unwritten cell is undefined
  -- behaviour; here it is left out, so that it shows in the length.
  abbrev pub initialized : List (Option A) → List A
  initialized [] = []
  initialized (none ∷ cells) = initialized cells
  initialized (some x ∷ cells) = x ∷ initialized cells

  -- A storage of `capacity` cells whose first cells hold `xs` and whose others are unwritten.
  abbrev pub filled : ℕ → List A → List (Option A)
  filled zero xs = []
  filled (suc n) [] = none ∷ filled n []
  filled (suc n) (x ∷ xs) = some x ∷ filled n xs

  pub filled-nil : (n : ℕ) → filled n [] ≡ uninit n
  filled-nil zero = refl
  filled-nil (suc n) = ap (λ t. none ∷ t) (filled-nil n)

  pub length-filled : (n : ℕ) (xs : List A) → length (filled n xs) ≡ n
  length-filled zero xs = refl
  length-filled (suc n) [] = ap suc (length-filled n [])
  length-filled (suc n) (x ∷ xs) = ap suc (length-filled n xs)

  pub initialized-take :
      (n : ℕ) (xs : List A) → length xs ≤ n → initialized (take (length xs) (filled n xs)) ≡ xs
  initialized-take n [] h = refl
  initialized-take zero (x ∷ xs) h = absurd (omega arith)
  initialized-take (suc n) (x ∷ xs) h = ap (λ t. x ∷ t) (initialized-take n xs (omega arith))

  pub set-filled :
      (n : ℕ) (xs : List A) (x : A)
      → length xs < n
      → set (filled n xs) (length xs) (some x) ≡ filled n (xs ++ (x ∷ []))
  set-filled zero xs x h = absurd (omega arith)
  set-filled (suc n) [] x h = refl
  set-filled (suc n) (y ∷ xs) x h = ap (λ t. some y ∷ t) (set-filled n xs x (omega arith))

  pub write_each-filled :
      (n : ℕ) (xs ys : List A)
      → length xs + length ys ≤ n
      → write_each (filled n xs) (length xs) ys ≡ filled n (xs ++ ys)
  unfolding write_each
  write_each-filled n xs [] h = rw append-nil
  write_each-filled n xs (y ∷ ys) h =
      let last : length (xs ++ (y ∷ [])) ≡ suc (length xs) =
        omega (arith, length-append xs (y ∷ [])) in
      rw (set-filled n xs y (omega arith)) (
        ap (λ k. write_each (filled n (xs ++ (y ∷ []))) k ys) (sym last)
        ∙ write_each-filled n (xs ++ (y ∷ [])) ys (omega (arith, last))
        ∙ ap (filled n) (append_assoc xs (y ∷ []) ys))
