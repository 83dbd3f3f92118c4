-- ===== src/Vtpm/Cache/Transient.antt =====
-- crates/vtpm/src/lib.rs: the handle that `VtpmCache::save_transient` finds, and the cache it leaves.
use tpm2_library.Common.{
  ℕ, zero, suc, ◌+◌, ◌-◌, ◌%◌, ◌≤◌, ◌<◌, List, ◌∷◌, Option, none, some, ok, err, Result, ◌≡◌, ◌≢◌,
  ◌↔◌, inl, inr, refl, sym, ap, ◌∙◌, arith, Option-cases, subst,
}
use tpm2_library.Common.Maps.{get, get-insert_same, get-insert_other}
use native.Mathlib.Decide.{ℕ_discrete}
use tpm2_library.Protocol.Constants.Ht.{persistent, discriminant}
use tpm2_library.Vtpm.Error.{VtpmError, no_handles}
use tpm2_library.Vtpm.Env.{Env}
use tpm2_library.Vtpm.Cache.{
  VtpmKey, VtpmCache, key_at, handle_type, transient_start, transient_end, transient_count,
  publish_name, find_by_name, candidate, next_handle, new_key,
}
use tpm2_library.Vtpm.Cache.Publish.{Published, publish_name-Published}
use tpm2_library.Vtpm.Cache.Invariant.{IsWellFormed}
use tpm2_library.Vtpm.Cache.Keeps.{with_key, stored-IsWellFormed}
use tpm2_library.Vtpm.Cache.Save.{save_transient, fill_vacant, fill_named, find_vacant}

abbrev pub IsTransient : ℕ → Type 0
IsTransient h = (transient_start ≤ h) × (h ≤ transient_end)

candidate-IsTransient :
    (start i : ℕ) → IsTransient start → i < transient_count → IsTransient (candidate start i)
unfolding candidate
candidate-IsTransient start i range h = ground arith

-- The search comes to every transient handle.
reach : ℕ → ℕ → ℕ
reach start h = (h + transient_count - start) % transient_count

candidate-reach :
    (start h : ℕ)
    → IsTransient start
    → IsTransient h
    → (reach start h < transient_count) × (candidate start (reach start h) ≡ h)
unfolding candidate reach
candidate-reach start h range r = ground arith

next_handle-IsTransient : (h : ℕ) → IsTransient h → IsTransient (next_handle h)
unfolding next_handle
next_handle-IsTransient h r = ground arith

transient_type : (h : ℕ) → IsTransient h → handle_type h ≢ discriminant persistent
unfolding discriminant
transient_type h r = omega arith

module _ {V : Type 0} (look : ℕ → Option V) (start : ℕ) where
  take_vacant :
      (n i : ℕ)
      → look (candidate start i) ≡ none
      → find_vacant look start i (suc n) ≡ some (candidate start i)
  unfolding find_vacant
  take_vacant n i free = rw (free, find_vacant) refl

  pass_taken :
      (n i : ℕ) (v : V)
      → look (candidate start i) ≡ some v
      → find_vacant look start i (suc n) ≡ find_vacant look start (suc i) n
  unfolding find_vacant
  pass_taken n i v taken = rw (taken, find_vacant) refl

  find_vacant-some :
      (n i h : ℕ)
      → find_vacant look start i n ≡ some h
      → (j : ℕ) × (j < i + n) × (h ≡ candidate start j) × (look h ≡ none)
  unfolding find_vacant
  find_vacant-some zero i h e = cc
  find_vacant-some (suc n) i h e = elim (Option-cases (look (candidate start i))) [
    | inl free ↦
        let hit : h ≡ candidate start i = ground (arith, e, take_vacant n i free) in
        (i, omega arith, hit, ap look hit ∙ free)
    | inr (v, taken) ↦
        let (j, below, at, miss) =
          find_vacant-some n (suc i) h (sym (pass_taken n i v taken) ∙ e) in
        (j, omega (arith, below), at, miss)
  ]

  find_vacant-none :
      (n i j : ℕ)
      → find_vacant look start i n ≡ none
      → i ≤ j
      → j < i + n
      → look (candidate start j) ≢ none
  unfolding find_vacant
  find_vacant-none zero i j e le lt = absurd (omega arith)
  find_vacant-none (suc n) i j e le lt = elim (Option-cases (look (candidate start i))) [
    | inl free ↦ cc (e, take_vacant n i free)
    | inr (v, taken) ↦ elim (ℕ_discrete i j) [
      | yes here ↦ λ free. cc (here, taken, free)
      | no later ↦
          find_vacant-none n (suc i) j (sym (pass_taken n i v taken) ∙ e) (omega (arith, later))
            (omega arith)
    ]
  ]

  find_vacant-all :
      (n i : ℕ)
      → ((j : ℕ) → j < i + n → look (candidate start j) ≢ none)
      → find_vacant look start i n ≡ none
  unfolding find_vacant
  find_vacant-all zero i all = refl
  find_vacant-all (suc n) i all = elim (Option-cases (look (candidate start i))) [
    | inl free ↦ absurd (all i (omega arith) free)
    | inr (v, taken) ↦
        pass_taken n i v taken ∙ find_vacant-all n (suc i) (λ j below. all j (omega (arith, below)))
  ]

module _ {P N C Y F : Type 0} (E : Env P N C Y F) where
  -- The first vacant handle of the search, as the code computes it.
  abbrev vacant : VtpmCache P N C Y F → Option ℕ
  vacant s = find_vacant (λ h. key_at h s.contexts) s.next_virtual_handle 0 transient_count

  -- The cache has no room for another transient key.
  abbrev pub IsFull : VtpmCache P N C Y F → Type 0
  IsFull s = (h : ℕ) → IsTransient h → key_at h s.contexts ≢ none

  -- What a saved transient key leaves behind.
  pub record Stored (h : ℕ) (k : VtpmKey P C Y) (s t : VtpmCache P N C Y F) : Type 0 where
    pub fresh : IsTransient h × (key_at h s.contexts ≡ none)
    pub stored : key_at h t.contexts ≡ some k
    pub others : (j : ℕ) → j ≢ h → key_at j t.contexts ≡ key_at j s.contexts
    pub by_name : (n : N) → E.make_name k.public ≡ some n → find_by_name E n t ≡ some k
    pub dirty_eq : t.dirty ≡ h ∷ s.dirty
    pub keeps : IsWellFormed E t

  found-by_name :
      (h : ℕ) (k : VtpmKey P C Y) (n : N) (t : VtpmCache P N C Y F)
      → get E.name_eq n t.handles ≡ some h
      → key_at h t.contexts ≡ some k
      → find_by_name E n t ≡ some k
  unfolding find_by_name
  found-by_name h k n t e there = rw (e, find_by_name) there

  module _ (context : C) (public parent : P) (policy : List Y) (s : VtpmCache P N C Y F) where
    filled :
        (h : ℕ) (n : N)
        → IsWellFormed E s
        → IsTransient h
        → key_at h s.contexts ≡ none
        → E.make_name public ≡ some n
        → Stored h
            (new_key h context public parent policy)
            s
            ((fill_named E h (new_key h context public parent policy) (some n) s).1)
    unfolding fill_named find_by_name
    filled h n wf range free made =
        let k = new_key h context public parent policy in
        let s1 = with_key E h n k s in
        let p : Published E h n s1 (publish_name E h n s1) = publish_name-Published E h n s1 in
        let t = publish_name E h n s1 in
        let w : IsWellFormed E t =
          stored-IsWellFormed E h n k s wf refl made
            (λ m there. absurd (transient_type h range (wf.foreign m h there free))) in
        let stored : key_at h t.contexts ≡ some k =
          ap (key_at h) p.same.contexts_eq ∙ get-insert_same ℕ_discrete h k s.contexts in
        record {
          fresh = (range, free);
          stored = stored;
          others = λ j other.
              ap (key_at j) p.same.contexts_eq ∙ get-insert_other ℕ_discrete h j k s.contexts other;
          by_name = λ m made'.
              found-by_name h k m t
                (ap (λ x. get E.name_eq x t.handles) (ground (arith, made, made')) ∙ p.handle_of)
                stored;
          dirty_eq = ap (◌∷◌ h) p.same.dirty_eq;
          keeps = record {
            unique = w.unique;
            placed = w.placed;
            published = w.published;
            live = w.live;
            own = w.own;
            foreign = w.foreign;
            in_range = next_handle-IsTransient h range;
          };
        }

    abbrev Saved : Type 0
    Saved = Result VtpmError ℕ × VtpmCache P N C Y F

    named-Stored :
        (i h : ℕ) (t : VtpmCache P N C Y F) (name : Option N)
        → IsWellFormed E s
        → IsTransient i
        → key_at i s.contexts ≡ none
        → E.make_name public ≡ name
        → ◌≡◌ {A = Saved} (fill_named E i (new_key i context public parent policy) name s) (ok h, t)
        → Stored h (new_key h context public parent policy) s t
    unfolding fill_named
    named-Stored i h t none wf range free made e = cc
    named-Stored i h t (some n) wf range free made e =
        subst (λ j. Stored j (new_key j context public parent policy) s t) (ground arith)
          (subst (Stored i (new_key i context public parent policy) s) (ap (λ (r : Saved). r.1) e)
            (filled i n wf range free made))

    vacant-Stored :
        (h : ℕ) (t : VtpmCache P N C Y F) (found : Option ℕ)
        → IsWellFormed E s
        → vacant s ≡ found
        → ◌≡◌ {A = Saved} (fill_vacant E found context public parent policy s) (ok h, t)
        → Stored h (new_key h context public parent policy) s t
    unfolding fill_vacant
    vacant-Stored h t none wf v e = cc
    vacant-Stored h t (some i) wf v e =
        let (j, below, at, free) =
          find_vacant-some (λ x. key_at x s.contexts) s.next_virtual_handle transient_count 0 i v in
        named-Stored i h t (E.make_name public) wf
          (subst IsTransient (sym at)
            (candidate-IsTransient s.next_virtual_handle j wf.in_range (omega (arith, below))))
          free refl e

    -- In a well-formed cache, a `save_transient` that succeeds stores the new key at the transient
    -- handle that it returns, which was free, leaves every other context alone, publishes the key's
    -- name so that it is found by it, marks the handle dirty, and keeps the cache well formed.
    pub save_transient-Stored :
        (h : ℕ) (t : VtpmCache P N C Y F)
        → IsWellFormed E s
        → save_transient E context public parent policy s ≡ (ok h, t)
        → Stored h (new_key h context public parent policy) s t
    unfolding save_transient
    save_transient-Stored h t wf e = vacant-Stored h t (vacant s) wf refl e

    not_vacant :
        (found : Option ℕ)
        → (fill_vacant E found context public parent policy s).0 ≡ err no_handles
        → found ≡ none
    unfolding fill_vacant fill_named
    not_vacant none e = refl
    not_vacant (some h) e = elim (Option-cases (E.make_name public)) [
      | inl missing ↦ ground (arith, e, missing)
      | inr (n, made) ↦ ground (arith, e, made)
    ]

    -- In a well-formed cache, `save_transient` reports that no handle is left exactly when every
    -- transient handle is taken.
    pub save_transient-NoHandles_iff :
        IsWellFormed E s
        → ((save_transient E context public parent policy s).0 ≡ err no_handles) ↔ IsFull s
    unfolding save_transient fill_vacant
    save_transient-NoHandles_iff wf =
        let look : ℕ → Option (VtpmKey P C Y) = λ h. key_at h s.contexts in
        (
          λ e h range.
              let (below, at) = candidate-reach s.next_virtual_handle h wf.in_range range in
              let taken =
                find_vacant-none look s.next_virtual_handle transient_count 0
                  (reach s.next_virtual_handle h) (not_vacant (vacant s) e) (omega arith)
                  (omega (arith, below)) in
              λ free. taken (ap look at ∙ free),
          λ full.
              ap (λ v. (fill_vacant E v context public parent policy s).0)
                (find_vacant-all look s.next_virtual_handle transient_count 0 (λ j below.
                  full (candidate s.next_virtual_handle j) (
                    candidate-IsTransient s.next_virtual_handle j wf.in_range
                      (omega (arith, below))))),
        )
