-- ===== src/Vtpm/Cache/Ancestors.antt =====
-- crates/vtpm/src/lib.rs: `VtpmCache::fetch_ancestors`. The loop runs on fuel; `none` stands for a
-- loop that has not come to its end.
use tpm2_library.Common.{
  ℕ, zero, suc, List, [], ◌∷◌, Option, none, some, Bool, true, false, Result, ok, err, ◌==◌, ◌&&◌,
  if◌then◌else◌,
}
use tpm2_library.Common.Maps.{Map, get}
use tpm2_library.Protocol.Constants.Ht.{persistent, discriminant}
use tpm2_library.Vtpm.Error.{VtpmError, handle_not_found, parent_not_found, operation_failed}
use tpm2_library.Vtpm.Env.{Env}
use tpm2_library.Vtpm.Cache.{VtpmKey, VtpmCache, key_at, handle_type}

-- `handles.values()` with one that equals `h`
unfoldable pub any_value : {N : Type 0} → ℕ → Map N ℕ → Bool
any_value h [] = false
any_value h ((n, j) ∷ rest) = if j == h then true else any_value h rest

module _ {P N C Y F : Type 0} (E : Env P N C Y F) where
  -- The handle of the first context whose public area is `p`.
  unfoldable pub find_public : P → Map ℕ (VtpmKey P C Y) → Option ℕ
  find_public p [] = none
  find_public p ((h, k) ∷ rest) = elim (E.public_eq k.public p) [
    | yes _ ↦ some h
    | no _ ↦ find_public p rest
  ]

  -- The parent is no cached context: a live handle with its name is the root.
  unfoldable pub physical : Option N → List ℕ → VtpmCache P N C Y F → Result VtpmError (List ℕ)
  physical none chain s = err operation_failed
  physical (some n) chain s = elim (get E.name_eq n s.handles) [
    | some root ↦ ok (root ∷ chain)
    | none ↦ err parent_not_found
  ]

  -- `chain` holds the handles below `current`.
  unfoldable pub climb : ℕ → ℕ → List ℕ → VtpmCache P N C Y F → Option (Result VtpmError (List ℕ))
  unfolding find_public physical
  climb zero current chain s = none
  climb (suc fuel) current chain s = elim (key_at current s.contexts) [
    | none ↦ some (err (handle_not_found current))
    | some k ↦ elim (E.is_null k.parent) [
      | true ↦ some (ok (current ∷ chain))
      | false ↦ elim (find_public k.parent s.contexts) [
        | some parent ↦ climb fuel parent (current ∷ chain) s
        | none ↦ some (physical (E.make_name k.parent) (current ∷ chain) s)
      ]
    ]
  ]

  unfoldable pub fetch_ancestors : ℕ → ℕ → VtpmCache P N C Y F → Option (Result VtpmError (List ℕ))
  unfolding any_value climb discriminant
  fetch_ancestors fuel target s =
      let climbed = climb fuel target [] s in
      if (handle_type target == discriminant persistent) && any_value target s.handles
      then some (ok (target ∷ []))
      else climbed
