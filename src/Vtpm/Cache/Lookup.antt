-- ===== src/Vtpm/Cache/Lookup.antt =====
-- crates/vtpm/src/lib.rs: `VtpmCache::find_by_name` against the contexts of the cache.
use tpm2_library.Common.{ℕ, none, some, ◌≡◌, ◌≢◌, inl, inr, refl, sym, ap, ◌∙◌, arith, Option-cases}
use tpm2_library.Common.Maps.{get, get-remove_other}
use native.Mathlib.Decide.{ℕ_discrete}
use tpm2_library.Vtpm.Env.{Env}
use tpm2_library.Vtpm.Cache.{VtpmKey, VtpmCache, key_at, publish_name, unpublish_name, find_by_name}
use tpm2_library.Vtpm.Cache.Publish.{
  Published, Unpublished, publish_name-Published, unpublish_name-Unpublished,
}
use tpm2_library.Vtpm.Cache.Remove.{forget}
use tpm2_library.Vtpm.Cache.Invariant.{IsWellFormed}
use tpm2_library.Vtpm.Cache.Keeps.{bare}

module _ {P N C Y F : Type 0} (E : Env P N C Y F) where
  unmapped :
      (n : N) (s : VtpmCache P N C Y F)
      → get E.name_eq n s.handles ≡ none
      → find_by_name E n s ≡ none
  unfolding find_by_name
  unmapped n s e = rw (e, find_by_name) refl

  mapped :
      (n : N) (h : ℕ) (s : VtpmCache P N C Y F)
      → get E.name_eq n s.handles ≡ some h
      → find_by_name E n s ≡ key_at h s.contexts
  unfolding find_by_name
  mapped n h s e = rw (e, find_by_name) refl

  -- In a well-formed cache `find_by_name` returns only a context whose public area has that name, and
  -- one that `find_by_handle` returns for its own handle.
  pub find_by_name_sound :
      (n : N) (k : VtpmKey P C Y) (s : VtpmCache P N C Y F)
      → IsWellFormed E s
      → find_by_name E n s ≡ some k
      → (E.make_name k.public ≡ some n) × (key_at k.handle s.contexts ≡ some k)
  find_by_name_sound n k s wf e = elim (Option-cases (get E.name_eq n s.handles)) [
    | inl missing ↦ absurd (cc (unmapped n s missing, e))
    | inr (h, hit) ↦
        let there : key_at h s.contexts ≡ some k = sym (mapped n h s hit) ∙ e in
        let (m, named, made) = wf.published h k there in
        (
          ground (arith, made, named, wf.own n h k hit there),
          ap (λ i. key_at i s.contexts) (wf.placed h k there) ∙ there,
        )
  ]

  -- The second of two contexts with one name takes over the mapping; when the second is removed, the
  -- first is still in the cache and is not found by its name.
  pub find_by_name_shadowed :
      (h j : ℕ) (n : N) (k : VtpmKey P C Y) (s : VtpmCache P N C Y F)
      → j ≢ h
      → key_at j s.contexts ≡ some k
      → E.make_name k.public ≡ some n
      → (key_at j (forget E h (publish_name E h n s)).contexts ≡ some k)
        × (find_by_name E n (forget E h (publish_name E h n s)) ≡ none)
  unfolding forget
  find_by_name_shadowed h j n k s other there made =
      let s1 = publish_name E h n s in
      let p : Published E h n s s1 = publish_name-Published E h n s in
      let u : Unpublished E h (bare E h s1) (unpublish_name E h (bare E h s1)) =
        unpublish_name-Unpublished E h (bare E h s1) in
      (
        ap (key_at j) u.same.contexts_eq
            ∙ get-remove_other ℕ_discrete h j s1.contexts other
            ∙ ap (key_at j) p.same.contexts_eq
            ∙ there,
        unmapped n (forget E h s1) (elim (Option-cases (get E.name_eq n (forget E h s1).handles)) [
          | inl missing ↦ missing
          | inr (i, hit) ↦
              let (before, not_own) = u.old n i hit in
              absurd (not_own p.name_of (ground (arith, before, p.handle_of)))
        ]),
      )
