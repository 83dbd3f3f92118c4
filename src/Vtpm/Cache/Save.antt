-- ===== src/Vtpm/Cache/Save.antt =====
-- crates/vtpm/src/lib.rs: `VtpmCache::save_transient` and `save_persistent`.
use tpm2_library.Common.{
  ℕ, zero, suc, List, ◌∷◌, Option, none, some, Result, ok, err, ◌==◌, if◌then◌else◌,
}
use tpm2_library.Common.Maps.{insert}
use native.Mathlib.Decide.{ℕ_discrete}
use tpm2_library.Protocol.Constants.Ht.{persistent, discriminant}
use tpm2_library.Vtpm.Error.{VtpmError, no_handles, operation_failed, invalid_handle_type}
use tpm2_library.Vtpm.Env.{Env}
use tpm2_library.Vtpm.Cache.{
  VtpmKey, VtpmCache, key_at, publish_name, next_handle, candidate, transient_count, handle_type,
  new_key,
}

-- The first vacant handle of the `n` candidates from the `i`-th on.
unfoldable pub find_vacant : {V : Type 0} → (ℕ → Option V) → ℕ → ℕ → ℕ → Option ℕ
find_vacant look start i zero = none
find_vacant look start i (suc n) = elim (look (candidate start i)) [
  | none ↦ some (candidate start i)
  | some taken ↦ find_vacant look start (suc i) n
]

module _ {P N C Y F : Type 0} (E : Env P N C Y F) where
  -- The entry is filled and published; the next search starts behind it.
  unfoldable pub fill_named :
      ℕ → VtpmKey P C Y → Option N → VtpmCache P N C Y F → Result VtpmError ℕ × VtpmCache P N C Y F
  unfolding publish_name
  fill_named h k none s = (err operation_failed, s)
  fill_named h k (some n) s =
      let s' = publish_name E h n (record s { contexts = insert ℕ_discrete h k s.contexts }) in
      (ok h, record s' { dirty = h ∷ s'.dirty; next_virtual_handle = next_handle h })

  unfoldable pub fill_vacant :
      Option ℕ → C → P → P → List Y → VtpmCache P N C Y F → Result VtpmError ℕ × VtpmCache P N C Y F
  unfolding fill_named
  fill_vacant none context public parent policy s = (err no_handles, s)
  fill_vacant (some h) context public parent policy s =
      fill_named h (new_key h context public parent policy) (E.make_name public) s

  unfoldable pub save_transient :
      C → P → P → List Y → VtpmCache P N C Y F → Result VtpmError ℕ × VtpmCache P N C Y F
  unfolding fill_vacant
  save_transient context public parent policy s =
      let vacant = find_vacant (λ h. key_at h s.contexts) s.next_virtual_handle 0 transient_count in
      fill_vacant vacant context public parent policy s

  unfoldable pub store_named :
      ℕ
      → VtpmKey P C Y
      → Option N
      → VtpmCache P N C Y F
      → Result VtpmError (Unit {0}) × VtpmCache P N C Y F
  unfolding publish_name
  store_named h k none s = (err operation_failed, s)
  store_named h k (some n) s =
      let s' = publish_name E h n (record s { contexts = insert ℕ_discrete h k s.contexts }) in
      (ok tt, record s' { dirty = h ∷ s'.dirty })

  unfoldable pub save_persistent :
      ℕ → P → P → List Y → VtpmCache P N C Y F → Result VtpmError (Unit {0}) × VtpmCache P N C Y F
  unfolding store_named discriminant
  save_persistent h public parent policy s =
      if handle_type h == discriminant persistent
      then store_named h (new_key h E.empty_context public parent policy) (E.make_name public) s
      else (err (invalid_handle_type (handle_type h)), s)
