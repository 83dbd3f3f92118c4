-- ===== src/Vtpm/Cache/Chain.antt =====
-- crates/vtpm/src/lib.rs: the chain that `VtpmCache::fetch_ancestors` returns, and when its loop ends.
use tpm2_library.Common.{
  ℕ, zero, suc, ◌<◌, List, [], ◌∷◌, ◌++◌, Option, none, some, true, false, Result, ok, err, ◌≡◌,
  ◌⊎◌, inl, inr, refl, sym, ap, ◌∙◌, arith, subst, Option-cases, Bool-cases, ◌==◌, ◌&&◌,
}
use tpm2_library.Common.Maps.{Map, IsMap, In, get}
use native.Mathlib.Decide.{ℕ_discrete}
use tpm2_library.Protocol.Constants.Ht.{persistent, discriminant}
use tpm2_library.Vtpm.Error.{VtpmError, handle_not_found}
use tpm2_library.Vtpm.Env.{Env}
use tpm2_library.Vtpm.Cache.{VtpmKey, VtpmCache, key_at, handle_type}
use tpm2_library.Vtpm.Cache.Invariant.{IsWellFormed}
use tpm2_library.Vtpm.Cache.Ancestors.{find_public, physical, climb, fetch_ancestors, any_value}

module _ {P N C Y F : Type 0} (E : Env P N C Y F) where
  find_public-In :
      (p : P) (h : ℕ) (m : Map ℕ (VtpmKey P C Y))
      → find_public E p m ≡ some h
      → (k : VtpmKey P C Y) × In (h, k) m × (k.public ≡ p)
  unfolding find_public
  find_public-In p h [] e = cc
  find_public-In p h ((j, i) ∷ m) e = found (find_public-In p h m) (E.public_eq i.public p) e
    where
      found :
          (find_public E p m ≡ some h → (k : VtpmKey P C Y) × In (h, k) m × (k.public ≡ p))
          → (d : Dec (i.public ≡ p)) → elim d [ yes _ ↦ some j | no _ ↦ find_public E p m ] ≡ some h
          → (k : VtpmKey P C Y) × In (h, k) ((j, i) ∷ m) × (k.public ≡ p)
      found ih (yes same) hit = (i, inl (ground (arith, hit)), same)
      found ih (no differs) hit = let (k, inside, its) = ih hit in (k, inr inside, its)

  module _ (s : VtpmCache P N C Y F) where
    -- `a` is the handle of a context whose public area is the parent of the context at `b`.
    abbrev pub Above : ℕ → ℕ → Type 0
    Above a b =
        (child : VtpmKey P C Y) × (key_at b s.contexts ≡ some child)
        × (owner : VtpmKey P C Y) × (key_at a s.contexts ≡ some owner)
        × (owner.public ≡ child.parent)

    abbrev pub Links : List ℕ → Type 0
    Links [] = ⊥
    Links (a ∷ []) = Unit {0}
    Links (a ∷ (b ∷ rest)) = Above a b × Links (b ∷ rest)

    abbrev pub EndsAt : ℕ → List ℕ → Type 0
    EndsAt target chain = (front : List ℕ) × (chain ≡ front ++ (target ∷ []))

    -- `root` is a live handle with the name of the parent of the first context of the chain, and no
    -- context has that parent as its public area.
    abbrev pub Hosted : ℕ → List ℕ → Type 0
    Hosted root [] = ⊥
    Hosted root (b ∷ rest) =
        (k : VtpmKey P C Y) × (key_at b s.contexts ≡ some k)
        × (find_public E k.parent s.contexts ≡ none)
        × (n : N) × (E.make_name k.parent ≡ some n)
        × (get E.name_eq n s.handles ≡ some root)

    -- The first handle of the chain needs no other key.
    abbrev pub Rooted : List ℕ → Type 0
    Rooted [] = ⊥
    Rooted (a ∷ rest) =
        ((k : VtpmKey P C Y) × (key_at a s.contexts ≡ some k)
          × (E.is_null k.parent ≡ true)
          × Links (a ∷ rest))
        ⊎ (Links rest × Hosted a rest)

    module _ (fuel current : ℕ) (chain : List ℕ) where
      climb_missing :
          key_at current s.contexts ≡ none
          → climb E (suc fuel) current chain s ≡ some (err (handle_not_found current))
      unfolding climb
      climb_missing e = rw (e, climb) refl

      module _ (k : VtpmKey P C Y) (at : key_at current s.contexts ≡ some k) where
        climb_root :
            E.is_null k.parent ≡ true
            → climb E (suc fuel) current chain s ≡ some (ok (current ∷ chain))
        unfolding climb
        climb_root null = ground (arith, at, null)

        climb_parent :
            (parent : ℕ)
            → E.is_null k.parent ≡ false
            → find_public E k.parent s.contexts ≡ some parent
            → climb E (suc fuel) current chain s ≡ climb E fuel parent (current ∷ chain) s
        unfolding climb
        climb_parent parent null hit = ground (arith, at, null, hit)

        climb-physical :
            E.is_null k.parent ≡ false
            → find_public E k.parent s.contexts ≡ none
            → climb E (suc fuel) current chain s
              ≡ some (physical E (E.make_name k.parent) (current ∷ chain) s)
        unfolding climb
        climb-physical null miss = ground (arith, at, null, miss)

    physical-ok :
        (name : Option N) (chain result : List ℕ)
        → physical E name chain s ≡ ok result
        → (n : N) × (root : ℕ) × (name ≡ some n)
          × (get E.name_eq n s.handles ≡ some root)
          × (result ≡ root ∷ chain)
    unfolding physical
    physical-ok none chain result e = cc
    physical-ok (some n) chain result e = elim (Option-cases (get E.name_eq n s.handles)) [
      | inl missing ↦ ground (arith, missing, e)
      | inr (root, hit) ↦ (n, root, refl, hit, ground (arith, hit, e))
    ]

    climb_chain :
        (fuel current target : ℕ) (chain result : List ℕ)
        → IsMap ℕ_discrete s.contexts
        → Links (current ∷ chain)
        → EndsAt target (current ∷ chain)
        → climb E fuel current chain s ≡ some (ok result)
        → Rooted result × EndsAt target result
    unfolding climb
    climb_chain zero current target chain result unique links ends e = cc
    climb_chain (suc fuel) current target chain result unique links ends e =
        elim (Option-cases (key_at current s.contexts)) [
          | inl missing ↦ cc (e, climb_missing fuel current chain missing)
          | inr (k, at) ↦ elim (Bool-cases (E.is_null k.parent)) [
            | inl null ↦
                let eq : current ∷ chain ≡ result =
                  ground (arith, e, climb_root fuel current chain k at null) in
                subst (λ r. Rooted r × EndsAt target r) eq (inl (k, at, null, links), ends)
            | inr other ↦ elim (Option-cases (find_public E k.parent s.contexts)) [
              | inr (parent, hit) ↦
                  let (owner, inside, its) = find_public-In k.parent parent s.contexts hit in
                  let (front, split) = ends in
                  climb_chain fuel parent target (current ∷ chain) result unique
                    ((k, at, owner, unique parent owner inside, its), links)
                    (parent ∷ front, ap (◌∷◌ parent) split)
                    (sym (climb_parent fuel current chain k at parent other hit) ∙ e)
              | inl miss ↦
                  let ended : physical E (E.make_name k.parent) (current ∷ chain) s ≡ ok result =
                    ground (arith, e, climb-physical fuel current chain k at other miss) in
                  let (n, root, made, live, eq) =
                    physical-ok (E.make_name k.parent) (current ∷ chain) result ended in
                  let (front, split) = ends in
                  subst (λ r. Rooted r × EndsAt target r) (sym eq)
                    (inr (links, (k, at, miss, n, made, live)), (root ∷ front, ap (◌∷◌ root) split))
            ]
          ]
        ]

    -- The parent lookup steps of `fetch_ancestors` that do not end its loop.
    abbrev pub GoesTo : ℕ → ℕ → Type 0
    GoesTo h j =
        (k : VtpmKey P C Y) × (key_at h s.contexts ≡ some k)
        × (E.is_null k.parent ≡ false)
        × (find_public E k.parent s.contexts ≡ some j)

    climb_ends :
        (rank : ℕ → ℕ) (fuel current : ℕ) (chain : List ℕ)
        → ((h j : ℕ) → GoesTo h j → rank j < rank h)
        → rank current < fuel
        → (r : Result VtpmError (List ℕ)) × (climb E fuel current chain s ≡ some r)
    climb_ends rank zero current chain down enough = absurd (omega arith)
    climb_ends rank (suc fuel) current chain down enough =
        elim (Option-cases (key_at current s.contexts)) [
          | inl missing ↦ (err (handle_not_found current), climb_missing fuel current chain missing)
          | inr (k, at) ↦ elim (Bool-cases (E.is_null k.parent)) [
            | inl null ↦ (ok (current ∷ chain), climb_root fuel current chain k at null)
            | inr other ↦ elim (Option-cases (find_public E k.parent s.contexts)) [
              | inl miss ↦ (
                physical E (E.make_name k.parent) (current ∷ chain) s,
                climb-physical fuel current chain k at other miss,
              )
              | inr (parent, hit) ↦
                  let (r, done) =
                    climb_ends rank fuel parent (current ∷ chain) down
                      (omega (arith, down current parent (k, at, other, hit))) in
                  (r, climb_parent fuel current chain k at parent other hit ∙ done)
            ]
          ]
        ]

    climb_loops :
        (Q : ℕ → Type 0) (fuel current : ℕ) (chain : List ℕ)
        → ((h : ℕ) → Q h → (j : ℕ) × GoesTo h j × Q j)
        → Q current
        → climb E fuel current chain s ≡ none
    unfolding climb
    climb_loops Q zero current chain closed q = refl
    climb_loops Q (suc fuel) current chain closed q =
        let (j, goes, next) = closed current q in
        let (k, at, null, hit) = goes in
        climb_parent fuel current chain k at j null hit
        ∙ climb_loops Q fuel j (current ∷ chain) closed next

    module _ (target : ℕ) where
      -- The target is none of the persistent handles that the cache was given.
      abbrev pub IsClimbed : Type 0
      IsClimbed =
          ((handle_type target == discriminant persistent) && any_value target s.handles) ≡ false

      fetch_climbs :
          (fuel : ℕ) → IsClimbed → fetch_ancestors E fuel target s ≡ climb E fuel target [] s
      unfolding fetch_ancestors
      fetch_climbs fuel e = rw e refl

      fetch_given :
          (fuel : ℕ)
          → ((handle_type target == discriminant persistent) && any_value target s.handles) ≡ true
          → fetch_ancestors E fuel target s ≡ some (ok (target ∷ []))
      unfolding fetch_ancestors
      fetch_given fuel e = rw e refl

      -- In a well-formed cache, a chain that `fetch_ancestors` returns for a target that is none of the
      -- persistent handles given ends with the target; each of its contexts but the first has as its
      -- parent the public area of the context before it; and the first context has a null parent, or
      -- the chain starts with a live handle that has the name of that context's parent.
      pub fetch_ancestors_chain :
          (fuel : ℕ) (chain : List ℕ)
          → IsWellFormed E s
          → IsClimbed
          → fetch_ancestors E fuel target s ≡ some (ok chain)
          → Rooted chain × EndsAt target chain
      fetch_ancestors_chain fuel chain wf climbed e =
          climb_chain fuel target target [] chain wf.unique tt ([], refl)
            (sym (fetch_climbs fuel climbed) ∙ e)

      -- Where some rank falls with every step from a context to its parent, `fetch_ancestors` ends within
      -- as many rounds as the rank of the target, and one more.
      pub fetch_ancestors_terminates :
          (rank : ℕ → ℕ) (fuel : ℕ)
          → ((h j : ℕ) → GoesTo h j → rank j < rank h)
          → rank target < fuel
          → (r : Result VtpmError (List ℕ)) × (fetch_ancestors E fuel target s ≡ some r)
      fetch_ancestors_terminates rank fuel down enough =
          elim (Bool-cases
            ((handle_type target == discriminant persistent) && any_value target s.handles)) [
              | inl given ↦ (ok (target ∷ []), fetch_given fuel given)
              | inr climbed ↦
                  let (r, done) = climb_ends rank fuel target [] down enough in
                  (r, fetch_climbs fuel climbed ∙ done)
            ]

      -- Contexts whose steps to their parents never leave a set, such as a key that is its own parent,
      -- keep `fetch_ancestors` in its loop for ever.
      pub fetch_ancestors_loops :
          (Q : ℕ → Type 0) (fuel : ℕ)
          → IsClimbed
          → ((h : ℕ) → Q h → (j : ℕ) × GoesTo h j × Q j)
          → Q target
          → fetch_ancestors E fuel target s ≡ none
      fetch_ancestors_loops Q fuel climbed closed q =
          fetch_climbs fuel climbed ∙ climb_loops Q fuel target [] closed q
