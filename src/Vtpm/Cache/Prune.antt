-- ===== src/Vtpm/Cache/Prune.antt =====
-- crates/vtpm/src/lib.rs: `VtpmCache::remove` as a whole.
use tpm2_library.Common.{
  ℕ, List, [], ◌∷◌, none, some, ok, ◌>>=◌, ◌≡◌, ◌≢◌, ◌⊎◌, ◌↔◌, inl, inr, sym, ap, ◌∙◌, arith, subst,
  >>=-ok,
}
use tpm2_library.Common.Maps.{In, remove, get-remove_cases, get-remove_other}
use native.Mathlib.Decide.{ℕ_discrete}
use tpm2_library.Vtpm.Env.{Env}
use tpm2_library.Vtpm.Cache.{VtpmKey, VtpmCache, key_at}
use tpm2_library.Vtpm.Cache.Keeps.{forget-IsWellFormed}
use tpm2_library.Vtpm.Cache.Invariant.{IsWellFormed}
use tpm2_library.Vtpm.Cache.Remove.{
  Sweep, delete, forget, remove_subtree, remove_key, remove_context,
}
use tpm2_library.Vtpm.Cache.Descent.{Reached, reached_root, reached_child, Untouched-IsWellFormed}
use tpm2_library.Vtpm.Cache.Subtree.{Pruned, TellsApart, remove_subtree-Pruned}
use tpm2_library.Vtpm.Cache.Sweep.{Untouched, delete-Untouched, forget-contexts}

module _ {P N C Y F : Type 0} (E : Env P N C Y F) where
  module _ (h : ℕ) (k : VtpmKey P C Y) (s t : VtpmCache P N C Y F)
      (there : key_at h s.contexts ≡ some k)
      (same : t.contexts ≡ remove ℕ_discrete h s.contexts) where
    later :
        (j : ℕ) (x : VtpmKey P C Y)
        → key_at j t.contexts ≡ some x
        → (j ≢ h) × (key_at j s.contexts ≡ some x)
    later j x e = get-remove_cases ℕ_discrete h j x s.contexts (sym (ap (key_at j) same) ∙ e)

    earlier :
        (j : ℕ) (x : VtpmKey P C Y)
        → j ≢ h
        → key_at j s.contexts ≡ some x
        → key_at j t.contexts ≡ some x
    earlier j x ne e = ap (key_at j) same ∙ get-remove_other ℕ_discrete h j s.contexts ne ∙ e

    -- Without its own context, a key has the same descendants.
    still_below : (p : P) → Reached E t k.public p → Reached E s k.public p
    still_below p (reached_root _ e) = reached_root p e
    still_below p (reached_child _ j x at its parent) =
        reached_child p j x (later j x at).1 its (still_below x.parent parent)

    below_without : (p : P) → Reached E s k.public p → Reached E t k.public p
    below_without p (reached_root _ e) = reached_root p e
    below_without p (reached_child _ j x at its parent) = elim (ℕ_discrete j h) [
      | no ne ↦ reached_child p j x (earlier j x ne at) its (below_without x.parent parent)
      | yes hit ↦
          let eq : x ≡ k = ground (arith, there, sym (ap (λ i. key_at i s.contexts) hit) ∙ at) in
          reached_root p (sym its ∙ ap (λ (y : VtpmKey P C Y). y.public) eq)
    ]

  -- What `remove` of the key `k` at `h` leaves.
  pub record Removed (h : ℕ) (k : VtpmKey P C Y) (s : VtpmCache P N C Y F) (deleted : List ℕ)
      (t : VtpmCache P N C Y F) : Type 0 where
    pub left :
        (j : ℕ) (x : VtpmKey P C Y)
        → (key_at j t.contexts ≡ some x)
          ↔ ((key_at j s.contexts ≡ some x) × (j ≢ h) × ¬ Reached E s k.public x.parent)
    pub listed :
        (j : ℕ)
        → In j deleted ↔ (
            (j ≡ h)
            ⊎ ((j ≢ h)
                × ((x : VtpmKey P C Y) × (key_at j s.contexts ≡ some x)
                    × Reached E s k.public x.parent)))
    pub keeps : IsWellFormed E t

  key_and_subtree :
      (h : ℕ) (k : VtpmKey P C Y) (s s' : VtpmCache P N C Y F) (w : Sweep E)
      → key_at h s.contexts ≡ some k
      → (forget E h s').contexts ≡ remove ℕ_discrete h s.contexts
      → Pruned E (forget E h s') w.cache k.public w.deleted
      → Removed h k s (h ∷ w.deleted) w.cache
  key_and_subtree h k s s' w there same p =
      let t = forget E h s' in
      record {
        left = λ j x. (
          λ e.
              let (at, above) = (p.left j x).0 e in
              let (ne, before) = later h k s t there same j x at in
              (before, ne, λ below. above (below_without h k s t there same x.parent below)),
          λ (at, ne, above). (p.left j x).1 (
            earlier h k s t there same j x ne at,
            λ below. above (still_below h k s t there same x.parent below),
          ),
        );
        listed = λ j. (
          λ inside. elim inside [
            | inl eq ↦ inl eq
            | inr rest ↦
                let (x, at, below) = (p.listed j).0 rest in
                let (ne, before) = later h k s t there same j x at in
                inr (ne, (x, before, still_below h k s t there same x.parent below))
          ],
          λ why. elim why [
            | inl eq ↦ inl eq
            | inr (ne, known) ↦
                let (x, at, below) = known in
                inr (
                  (p.listed j).1 (
                    x,
                    earlier h k s t there same j x ne at,
                    below_without h k s t there same x.parent below,
                  ))
          ],
        );
        keeps = p.keeps;
      }

  -- In a well-formed cache where the encoding of the key's public area, or of one below it, is the
  -- encoding of a context's parent only if the two are the same area: when `remove` succeeds on a key
  -- of the cache, the contexts that are left are exactly those that are neither the key nor
  -- below it; the returned handles are exactly those of the removed contexts; and the cache is still
  -- well formed.
  pub remove-Removed :
      (h : ℕ) (k : VtpmKey P C Y) (s t : VtpmCache P N C Y F) (deleted : List ℕ)
      → TellsApart E s k.public
      → IsWellFormed E s
      → key_at h s.contexts ≡ some k
      → remove_context E h s ≡ ok (deleted, t)
      → Removed h k s deleted t
  unfolding remove_context remove_key
  remove-Removed h k s t deleted apart wf there e =
      let opened : remove_key E h (some k) s ≡ ok (deleted, t) =
        ap (λ o. remove_key E h o s) (sym there) ∙ e in
      let (s', gone, next) =
        >>=-ok (delete E k s)
          (λ s'. remove_subtree E k.public (forget E h s') >>= λ (w : Sweep E).
            ok (h ∷ w.deleted, w.cache))
          opened in
      let (w, swept, last) =
        >>=-ok (remove_subtree E k.public (forget E h s'))
          (λ (w : Sweep E). ok (h ∷ w.deleted, w.cache)) next in
      let u : Untouched E s s' = delete-Untouched E k s s' gone in
      let same = forget-contexts E h s' ∙ ap (remove ℕ_discrete h) u.contexts_eq in
      let apart' : TellsApart E (forget E h s') k.public = λ p j x b below at made encoded.
        apart p j x b (still_below h k s (forget E h s') there same p below)
          (later h k s (forget E h s') there same j x at).1 made encoded in
      let done : Removed h k s (h ∷ w.deleted) w.cache = key_and_subtree h k s s' w there same (
        remove_subtree-Pruned E k.public (forget E h s') w apart'
          (forget-IsWellFormed E h s' (Untouched-IsWellFormed E s s' u wf)) swept) in
      let lists : h ∷ w.deleted ≡ deleted = ground (arith, last) in
      let caches : w.cache ≡ t = ground (arith, last) in
      subst (λ d. Removed h k s d t) lists (subst (Removed h k s (h ∷ w.deleted)) caches done)

  -- A handle that is no context is no error, and nothing is removed.
  pub remove-absent :
      (h : ℕ) (s : VtpmCache P N C Y F)
      → key_at h s.contexts ≡ none
      → remove_context E h s ≡ ok ([], s)
  unfolding remove_context remove_key
  remove-absent h s e = ap (λ o. remove_key E h o s) e
