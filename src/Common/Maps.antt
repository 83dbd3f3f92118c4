-- ===== src/Common/Maps.antt =====
-- `HashMap` and `HashSet` of the source as association lists. The order of a hash map is
-- unspecified, so a theorem that holds for every list holds for every order of iteration.
use Prim.Native.Nat.{◌≤◌, ◌<◌}
use mathlib.Core.Path.{◌≡◌, refl, ap, sym, ◌∙◌}
use mathlib.Core.Logic.{◌≢◌, ◌⊎◌, inl, inr}
use mathlib.Core.List.{List, [], ◌∷◌, ◌++◌}
use mathlib.Core.Option.{Option, none, some}
use native.Mathlib.Omega.{arith}
use tpm2_library.Common.Lists.{length}

abbrev pub Map : Type 0 → Type 0 → Type 0
Map K V = List (K × V)

module _ {A : Type 0} where
  abbrev pub In : A → List A → Type 0
  In x [] = ⊥
  In x (y ∷ ys) = (x ≡ y) ⊎ In x ys

  pub In-append_left : (x : A) (xs ys : List A) → In x xs → In x (xs ++ ys)
  In-append_left x [] ys h = elim h [ ]
  In-append_left x (y ∷ xs) ys (inl e) = inl e
  In-append_left x (y ∷ xs) ys (inr h) = inr (In-append_left x xs ys h)

  pub In-append_right : (x : A) (xs ys : List A) → In x ys → In x (xs ++ ys)
  In-append_right x [] ys h = h
  In-append_right x (y ∷ xs) ys h = inr (In-append_right x xs ys h)

  pub In-append_cases : (x : A) (xs ys : List A) → In x (xs ++ ys) → In x xs ⊎ In x ys
  In-append_cases x [] ys h = inr h
  In-append_cases x (y ∷ xs) ys (inl e) = inl (inl e)
  In-append_cases x (y ∷ xs) ys (inr h) = elim (In-append_cases x xs ys h) [
    | inl left ↦ inl (inr left)
    | inr right ↦ inr right
  ]

module _ {K V : Type 0} (dec : Discrete K) where
  unfoldable pub get : K → Map K V → Option V
  get k [] = none
  get k ((j, v) ∷ m) = elim (dec j k) [ yes _ ↦ some v | no _ ↦ get k m ]

  unfoldable pub remove : K → Map K V → Map K V
  remove k [] = []
  remove k ((j, v) ∷ m) = elim (dec j k) [ yes _ ↦ remove k m | no _ ↦ (j, v) ∷ remove k m ]

  unfoldable pub insert : K → V → Map K V → Map K V
  unfolding remove
  insert k v m = (k, v) ∷ remove k m

  pub get-remove_same : (k : K) (m : Map K V) → get k (remove k m) ≡ none
  unfolding get remove
  get-remove_same k [] = refl
  get-remove_same k ((j, v) ∷ m) = ground (arith, get-remove_same k m)

  pub get-remove_other : (k j : K) (m : Map K V) → j ≢ k → get j (remove k m) ≡ get j m
  unfolding get remove
  get-remove_other k j [] h = refl
  get-remove_other k j ((i, v) ∷ m) h = ground (arith, get-remove_other k j m h)

  pub get-insert_same : (k : K) (v : V) (m : Map K V) → get k (insert k v m) ≡ some v
  unfolding get insert
  get-insert_same k v m = ground arith

  pub get-insert_other : (k j : K) (v : V) (m : Map K V) → j ≢ k → get j (insert k v m) ≡ get j m
  unfolding get insert
  get-insert_other k j v m h = ground (arith, get-remove_other k j m h)

  pub length-remove-le : (k : K) (m : Map K V) → length (remove k m) ≤ length m
  unfolding remove
  length-remove-le k [] = omega arith
  length-remove-le k ((j, v) ∷ m) = ground (arith, length-remove-le k m)

  pub length-remove-lt :
      (k : K) (v : V) (m : Map K V) → get k m ≡ some v → length (remove k m) < length m
  unfolding get remove
  length-remove-lt k v [] e = cc
  length-remove-lt k v ((j, w) ∷ m) e = ground (arith, length-remove-lt k v m, length-remove-le k m)

  -- What a lookup sees after a removal or an insertion.
  pub get-remove_cases :
      (k j : K) (v : V) (m : Map K V) → get j (remove k m) ≡ some v → (j ≢ k) × (get j m ≡ some v)
  get-remove_cases k j v m e = elim (dec j k) [
    | yes same ↦ cc (same, get-remove_same k m, e)
    | no other ↦ (other, sym (get-remove_other k j m other) ∙ e)
  ]

  pub get-insert_cases :
      (k j : K) (v w : V) (m : Map K V)
      → get j (insert k v m) ≡ some w
      → ((j ≡ k) × (v ≡ w)) ⊎ ((j ≢ k) × (get j m ≡ some w))
  get-insert_cases k j v w m e = elim (dec j k) [
    | yes same ↦ inl (same, cc (same, get-insert_same k v m, e))
    | no other ↦ inr (other, sym (get-insert_other k j v m other) ∙ e)
  ]

  -- No key has two entries: a lookup finds each.
  abbrev pub IsMap : Map K V → Type 0
  IsMap m = (k : K) (v : V) → In (k, v) m → get k m ≡ some v

  pub get-In : (k : K) (v : V) (m : Map K V) → get k m ≡ some v → In (k, v) m
  unfolding get
  get-In k v [] e = cc
  get-In k v ((j, w) ∷ m) e = elim (dec j k) [
    | yes same ↦ inl (ground arith)
    | no other ↦ inr (get-In k v m (ground arith))
  ]

  In-kept :
      {i j k : K} {v w : V} (x : Dec (i ≡ j)) (rest : Map K V) (m : Map K V)
      → (In (k, v) rest → (k ≢ j) × In (k, v) m)
      → In (k, v) (elim x [ yes _ ↦ rest | no _ ↦ (i, w) ∷ rest ])
      → (k ≢ j) × In (k, v) ((i, w) ∷ m)
  In-kept (yes same) rest m ih h = let found = ih h in (found.0, inr found.1)
  In-kept (no other) rest m ih (inl e) = (λ hit. other (sym (ap (λ e. e.0) e) ∙ hit), inl e)
  In-kept (no other) rest m ih (inr h) = let found = ih h in (found.0, inr found.1)

  pub In-remove : (j k : K) (v : V) (m : Map K V) → In (k, v) (remove j m) → (k ≢ j) × In (k, v) m
  unfolding remove
  In-remove j k v [] h = elim h [ ]
  In-remove j k v ((i, w) ∷ m) h = In-kept (dec i j) (remove j m) m (In-remove j k v m) h

  pub remove-IsMap : (j : K) (m : Map K V) → IsMap m → IsMap (remove j m)
  remove-IsMap j m h k v found =
      let (other, there) = In-remove j k v m found in get-remove_other j k m other ∙ h k v there

  pub insert-IsMap : (j : K) (w : V) (m : Map K V) → IsMap m → IsMap (insert j w m)
  unfolding insert
  insert-IsMap j w m h k v (inl e) = ground (arith, get-insert_same j w m)
  insert-IsMap j w m h k v (inr there) =
      let (other, _) = In-remove j k v m there in
      get-insert_other j k w m other ∙ h k v (In-remove j k v m there).1
