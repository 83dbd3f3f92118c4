-- ===== src/Vtpm/Cache/Descent.antt =====
-- crates/vtpm/src/lib.rs: the invariant of the loops of `remove_subtree`.
use tpm2_library.Common.{
  ℕ, List, [], ◌∷◌, ◌++◌, none, some, ok, ◌≡◌, ◌≢◌, ◌⊎◌, inl, inr, refl, sym, ap, ◌∙◌, arith, subst,
  Option-cases, >>=-ok,
}
use tpm2_library.Common.Maps.{
  IsMap, In, In-append_left, In-append_right, In-append_cases, get, remove, get-remove_cases,
  get-remove_same, get-remove_other,
}
use native.Mathlib.Decide.{ℕ_discrete}
use tpm2_library.Vtpm.Env.{Env}
use tpm2_library.Vtpm.Cache.{VtpmKey, VtpmCache, key_at}
use tpm2_library.Vtpm.Cache.Keeps.{forget-IsWellFormed}
use tpm2_library.Vtpm.Cache.Invariant.{IsWellFormed}
use tpm2_library.Vtpm.Cache.Remove.{Sweep, delete, forget, sweep_children}
use tpm2_library.Vtpm.Cache.Sweep.{
  Untouched, delete-Untouched, forget-contexts, taken, skip_child, take_child,
}

module _ {P N C Y F : Type 0} (E : Env P N C Y F) where
  -- The public areas that lie below `root` in the cache `s`: that of the root, and that of every
  -- context whose parent lies below it.
  pub data Reached (s : VtpmCache P N C Y F) (root : P) : P → Type 0 where
    reached_root : (p : P) → p ≡ root → Reached s root p
    reached_child :
        (p : P) (h : ℕ) (k : VtpmKey P C Y)
        → key_at h s.contexts ≡ some k
        → k.public ≡ p
        → Reached s root k.parent
        → Reached s root p

  pub Untouched-IsWellFormed :
      (s t : VtpmCache P N C Y F) → Untouched E s t → IsWellFormed E s → IsWellFormed E t
  Untouched-IsWellFormed s t u wf =
      let at : (j : ℕ) → key_at j t.contexts ≡ key_at j s.contexts =
        λ j. ap (key_at j) u.contexts_eq in
      let name : (j : ℕ) → key_at j t.names ≡ key_at j s.names = λ j. ap (key_at j) u.names_eq in
      let handle : (n : N) → get E.name_eq n t.handles ≡ get E.name_eq n s.handles =
        λ n. ap (get E.name_eq n) u.handles_eq in
      record {
        unique = subst (IsMap ℕ_discrete) (sym u.contexts_eq) wf.unique;
        placed = λ h k e. wf.placed h k (sym (at h) ∙ e);
        published = λ h k e.
            let (n, named, made) = wf.published h k (sym (at h) ∙ e) in (n, name h ∙ named, made);
        live = λ h n e. let (k, there) = wf.live h n (sym (name h) ∙ e) in (k, at h ∙ there);
        own = λ n h k e there. name h ∙ wf.own n h k (sym (handle n) ∙ e) (sym (at h) ∙ there);
        foreign = λ n h e missing. wf.foreign n h (sym (handle n) ∙ e) (sym (at h) ∙ missing);
        in_range = omega (arith, u.next_eq, wf.in_range);
      }

  module _ (s : VtpmCache P N C Y F) (root : P) where
    -- The public area of a context that is gone, or of the root.
    abbrev pub Gone : Sweep E → P → Type 0
    Gone w p =
        (p ≡ root)
        ⊎ ((h : ℕ) × (k : VtpmKey P C Y) × (key_at h s.contexts ≡ some k)
            × (key_at h w.cache.contexts ≡ none)
            × (k.public ≡ p))

    -- The invariant of the loops, with the children that the inner loop has still to visit.
    pub record Inv (pending : List (ℕ × P)) (w : Sweep E) : Type 0 where
      pub wf : IsWellFormed E w.cache
      pub subset :
          (h : ℕ) (k : VtpmKey P C Y)
          → key_at h w.cache.contexts ≡ some k
          → key_at h s.contexts ≡ some k
      pub below :
          (h : ℕ) (k : VtpmKey P C Y)
          → key_at h s.contexts ≡ some k
          → key_at h w.cache.contexts ≡ none
          → Reached s root k.parent
      pub queued : (p : P) → In p w.queue → Reached s root p
      pub waiting :
          (h : ℕ) (p : P)
          → In (h, p) pending
          → (k : VtpmKey P C Y) × (key_at h s.contexts ≡ some k)
            × (p ≡ k.public)
            × Reached s root k.parent
      pub covered :
          (h : ℕ) (k : VtpmKey P C Y)
          → key_at h w.cache.contexts ≡ some k
          → Gone w k.parent
          → In k.parent w.queue ⊎ ((p : P) × In (h, p) pending)
      pub listed :
          (h : ℕ)
          → In h w.deleted
          → (key_at h w.cache.contexts ≡ none)
            × ((k : VtpmKey P C Y) × (key_at h s.contexts ≡ some k))
      pub complete :
          (h : ℕ) (k : VtpmKey P C Y)
          → key_at h s.contexts ≡ some k
          → key_at h w.cache.contexts ≡ none
          → In h w.deleted

    skip-Inv :
        (h : ℕ) (p : P) (rest : List (ℕ × P)) (w : Sweep E)
        → key_at h w.cache.contexts ≡ none
        → Inv ((h, p) ∷ rest) w
        → Inv rest w
    skip-Inv h p rest w missing i = record {
      wf = i.wf;
      subset = i.subset;
      below = i.below;
      queued = i.queued;
      waiting = λ j q there. i.waiting j q (inr there);
      covered = λ j k there gone. elim (i.covered j k there gone) [
        | inl queued ↦ inl queued
        | inr (q, listed) ↦ elim listed [
          | inl here ↦ absurd (cc (ap (λ (x : ℕ × P). x.0) here, missing, there))
          | inr later ↦ inr (q, later)
        ]
      ];
      listed = i.listed;
      complete = i.complete;
    }

    take-Inv :
        (h : ℕ) (p : P) (rest : List (ℕ × P)) (w : Sweep E) (k : VtpmKey P C Y)
        (t : VtpmCache P N C Y F)
        → key_at h w.cache.contexts ≡ some k
        → Untouched E w.cache t
        → Inv ((h, p) ∷ rest) w
        → Inv rest (taken E h p w t)
    take-Inv h p rest w k t there u i =
        let left : (j : ℕ)
            → key_at j (forget E h t).contexts ≡ key_at j (remove ℕ_discrete h w.cache.contexts) =
          λ j. ap (key_at j) (forget-contexts E h t ∙ ap (remove ℕ_discrete h) u.contexts_eq) in
        let kept : (j : ℕ) (x : VtpmKey P C Y)
            → key_at j (forget E h t).contexts ≡ some x
            → (j ≢ h) × (key_at j w.cache.contexts ≡ some x) =
          λ j x e. get-remove_cases ℕ_discrete h j x w.cache.contexts (sym (left j) ∙ e) in
        let before : (j : ℕ)
            → j ≢ h
            → key_at j (forget E h t).contexts ≡ none
            → key_at j w.cache.contexts ≡ none =
          λ j ne e. sym (left j ∙ get-remove_other ℕ_discrete h j w.cache.contexts ne) ∙ e in
        let drop_at : (j : ℕ) → j ≡ h → key_at j (forget E h t).contexts ≡ none = λ j eq.
          left j
          ∙ ap (λ v. key_at v (remove ℕ_discrete h w.cache.contexts)) eq
          ∙ get-remove_same ℕ_discrete h w.cache.contexts in
        let drop_keeps : (j : ℕ)
            → key_at j w.cache.contexts ≡ none
            → key_at j (forget E h t).contexts ≡ none =
          λ j missing. elim (ℕ_discrete j h) [
            | yes hit ↦ drop_at j hit
            | no ne ↦ left j ∙ get-remove_other ℕ_discrete h j w.cache.contexts ne ∙ missing
          ] in
        let (k', its, p_eq, reached) = i.waiting h p (inl refl) in
        record {
          wf = forget-IsWellFormed E h t (Untouched-IsWellFormed w.cache t u i.wf);
          subset = λ j x e. i.subset j x (kept j x e).1;
          below = λ j x e missing. elim (ℕ_discrete j h) [
            | yes hit ↦
                let eq : k' ≡ x =
                  ground (arith, sym its ∙ ap (λ v. key_at v s.contexts) (sym hit) ∙ e) in
                subst (λ (y : VtpmKey P C Y). Reached s root y.parent) eq reached
            | no ne ↦ i.below j x e (before j ne missing)
          ];
          queued = λ q inside. elim (In-append_cases q w.queue (p ∷ []) inside) [
            | inl old ↦ i.queued q old
            | inr new ↦ elim new [
              | inl eq ↦ reached_child q h k' its (sym p_eq ∙ sym eq) reached
              | inr never ↦ absurd never
            ]
          ];
          waiting = λ j q inside. i.waiting j q (inr inside);
          covered = λ j x e gone.
              let (ne, there_before) = kept j x e in
              let lift : In x.parent w.queue ⊎ ((q : P) × In (j, q) ((h, p) ∷ rest))
                  → In x.parent (w.queue ++ (p ∷ [])) ⊎ ((q : P) × In (j, q) rest) =
                λ c. elim c [
                  | inl inside ↦ inl (In-append_left x.parent w.queue (p ∷ []) inside)
                  | inr (q, inside) ↦ elim inside [
                    | inl here ↦ absurd (ne (ap (λ (y : ℕ × P). y.0) here))
                    | inr later ↦ inr (q, later)
                  ]
                ] in
              elim gone [
                | inl is_root ↦ lift (i.covered j x there_before (inl is_root))
                | inr (h1, k1, at, missing, pub_eq) ↦ elim (ℕ_discrete h1 h) [
                  | no other ↦ lift (
                      i.covered j x there_before
                        (inr (h1, k1, at, before h1 other missing, pub_eq)))
                  | yes hit ↦
                      let eq : k' ≡ k1 =
                        ground (arith, sym its ∙ ap (λ v. key_at v s.contexts) (sym hit) ∙ at) in
                      inl (
                        In-append_right x.parent w.queue (p ∷ []) (
                          inl (
                            sym pub_eq ∙ ap (λ (y : VtpmKey P C Y). y.public) (sym eq) ∙ sym p_eq)))
                ]
              ];
          listed = λ j inside. elim (In-append_cases j w.deleted (h ∷ []) inside) [
            | inl old ↦ let (missing, known) = i.listed j old in (drop_keeps j missing, known)
            | inr new ↦ elim new [
              | inl eq ↦ (drop_at j eq, (k', ap (λ v. key_at v s.contexts) eq ∙ its))
              | inr never ↦ absurd never
            ]
          ];
          complete = λ j x e missing. elim (ℕ_discrete j h) [
            | yes hit ↦ In-append_right j w.deleted (h ∷ []) (inl hit)
            | no ne ↦ In-append_left j w.deleted (h ∷ []) (i.complete j x e (before j ne missing))
          ];
        }

    pub visit-Inv :
        (children : List (ℕ × P)) (w w' : Sweep E)
        → sweep_children E children w ≡ ok w'
        → Inv children w
        → Inv [] w'
    unfolding sweep_children
    visit-Inv [] w w' e i = subst (Inv []) (ground (arith, e)) i
    visit-Inv ((h, p) ∷ rest) w w' e i = elim (Option-cases (key_at h w.cache.contexts)) [
      | inl missing ↦
          visit-Inv rest w w' (sym (skip_child E h p rest w missing) ∙ e)
            (skip-Inv h p rest w missing i)
      | inr (k, there) ↦
          let (t, gone, next) =
            >>=-ok (delete E k w.cache) (λ t. sweep_children E rest (taken E h p w t))
              (sym (take_child E h p rest w k there) ∙ e) in
          visit-Inv rest (taken E h p w t) w' next
            (take-Inv h p rest w k t there (delete-Untouched E k w.cache t gone) i)
    ]
