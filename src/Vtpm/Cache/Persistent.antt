-- ===== src/Vtpm/Cache/Persistent.antt =====
-- crates/vtpm/src/lib.rs: what `VtpmCache::save_persistent` accepts and stores.
use tpm2_library.Common.{
  ℕ, List, ◌∷◌, some, Result, ok, err, ◌≡◌, ◌≢◌, ◌⊎◌, inl, inr, refl, sym, ap, ◌∙◌, Bool-cases,
  ◌==◌, ==_iff, subst,
}
use tpm2_library.Common.Maps.{get, get-insert_same, get-insert_other}
use native.Mathlib.Decide.{ℕ_discrete}
use tpm2_library.Protocol.Constants.Ht.{persistent, discriminant}
use tpm2_library.Vtpm.Error.{VtpmError, invalid_handle_type}
use tpm2_library.Vtpm.Env.{Env}
use tpm2_library.Vtpm.Cache.{VtpmKey, VtpmCache, key_at, handle_type, publish_name, new_key}
use tpm2_library.Vtpm.Cache.Publish.{Published, publish_name-Published}
use tpm2_library.Vtpm.Cache.Invariant.{IsWellFormed}
use tpm2_library.Vtpm.Cache.Keeps.{with_key, stored-IsWellFormed}
use tpm2_library.Vtpm.Cache.Save.{save_persistent, store_named}

module _ {P N C Y F : Type 0} (E : Env P N C Y F) where
  module _ (h : ℕ) (public parent : P) (policy : List Y) (s : VtpmCache P N C Y F) where
    abbrev pub persistent_key : VtpmKey P C Y
    persistent_key = new_key h E.empty_context public parent policy

    -- `save_persistent` refuses a handle of another type and leaves the cache alone.
    pub save_persistent-InvalidHandleType :
        handle_type h ≢ discriminant persistent
        → save_persistent E h public parent policy s
          ≡ (err (invalid_handle_type (handle_type h)), s)
    unfolding save_persistent
    save_persistent-InvalidHandleType ne =
        elim (Bool-cases (handle_type h == discriminant persistent)) [
          | inl hit ↦ absurd (ne ((==_iff (handle_type h) (discriminant persistent)).0 hit))
          | inr differs ↦ rw differs refl
        ]

    abbrev Saved : Type 0
    Saved = Result VtpmError (Unit {0}) × VtpmCache P N C Y F

    abbrev stored_at : N → VtpmCache P N C Y F
    stored_at n =
        let t = publish_name E h n (with_key E h n persistent_key s) in
        record t { dirty = h ∷ t.dirty }

    run :
        (n : N)
        → handle_type h ≡ discriminant persistent
        → E.make_name public ≡ some n
        → ◌≡◌ {A = Saved} (save_persistent E h public parent policy s) (ok tt, stored_at n)
    unfolding save_persistent store_named
    run n type_ok made =
        rw ((==_iff (handle_type h) (discriminant persistent)).1 type_ok, made, store_named) refl

    stored_at-IsWellFormed :
        (n : N)
        → IsWellFormed E s
        → E.make_name public ≡ some n
        → ((m : N) → get E.name_eq m s.handles ≡ some h → (m ≡ n) ⊎ (key_at h s.names ≡ some m))
        → IsWellFormed E (stored_at n)
    stored_at-IsWellFormed n wf made only =
        let w = stored-IsWellFormed E h n persistent_key s wf refl made only in
        record {
          unique = w.unique;
          placed = w.placed;
          published = w.published;
          live = w.live;
          own = w.own;
          foreign = w.foreign;
          in_range = w.in_range;
        }

    -- In a well-formed cache, for a persistent handle whose public area has a name, and to which no
    -- other live name resolves than that name or the one that its context had published,
    -- `save_persistent` succeeds, stores the key under the handle and its name, touches no other
    -- context and keeps the invariant.
    pub save_persistent_stores :
        (n : N)
        → IsWellFormed E s
        → handle_type h ≡ discriminant persistent
        → E.make_name public ≡ some n
        → ((m : N) → get E.name_eq m s.handles ≡ some h → (m ≡ n) ⊎ (key_at h s.names ≡ some m))
        → let (r, t) = save_persistent E h public parent policy s in
          (r ≡ ok tt)
          × (key_at h t.contexts ≡ some persistent_key)
          × (get E.name_eq n t.handles ≡ some h)
          × ((j : ℕ) → j ≢ h → key_at j t.contexts ≡ key_at j s.contexts)
          × IsWellFormed E t
    save_persistent_stores n wf type_ok made only =
        let s1 = with_key E h n persistent_key s in
        let p : Published E h n s1 (publish_name E h n s1) = publish_name-Published E h n s1 in
        subst
          (λ (x : Saved).
            (x.0 ≡ ok tt)
            × (key_at h x.1.contexts ≡ some persistent_key)
            × (get E.name_eq n x.1.handles ≡ some h)
            × ((j : ℕ) → j ≢ h → key_at j x.1.contexts ≡ key_at j s.contexts)
            × IsWellFormed E x.1)
          (sym (run n type_ok made))
          (
            refl,
            ap (key_at h) p.same.contexts_eq
                ∙ get-insert_same ℕ_discrete h persistent_key s.contexts,
            p.handle_of,
            λ j other.
                ap (key_at j) p.same.contexts_eq
                ∙ get-insert_other ℕ_discrete h j persistent_key s.contexts other,
            stored_at-IsWellFormed n wf made only,
          )
