-- ===== src/Vtpm/Cache/Keeps.antt =====
-- crates/vtpm/src/lib.rs: the operations of `VtpmCache` keep its invariant.
use tpm2_library.Common.{ℕ, some, ◌≡◌, ◌⊎◌, inl, inr, sym, ap, ◌∙◌, arith, Option-cases, subst}
use tpm2_library.Common.Maps.{
  IsMap, get, insert, remove, remove-IsMap, insert-IsMap, get-remove_other, get-remove_cases,
  get-insert_same, get-insert_other, get-insert_cases,
}
use native.Mathlib.Decide.{ℕ_discrete}
use tpm2_library.Vtpm.Env.{Env}
use tpm2_library.Vtpm.Cache.{VtpmKey, VtpmCache, key_at, publish_name, unpublish_name}
use tpm2_library.Vtpm.Cache.Publish.{
  Published, Unpublished, publish_name-Published, unpublish_name-Unpublished,
}
use tpm2_library.Vtpm.Cache.Remove.{forget}
use tpm2_library.Vtpm.Cache.Invariant.{IsWellFormed}

module _ {P N C Y F : Type 0} (E : Env P N C Y F) where
  -- `contexts.remove`, before the indices follow.
  abbrev pub bare : ℕ → VtpmCache P N C Y F → VtpmCache P N C Y F
  bare h s = record s { contexts = remove ℕ_discrete h s.contexts }

  module _ (h : ℕ) (s : VtpmCache P N C Y F) (wf : IsWellFormed E s) where
    pub forget-IsWellFormed : IsWellFormed E (forget E h s)
    unfolding forget
    forget-IsWellFormed =
        let u : Unpublished E h (bare h s) (unpublish_name E h (bare h s)) =
          unpublish_name-Unpublished E h (bare h s) in
        let same = u.same.contexts_eq in
        let at : (j : ℕ)
            → key_at j (forget E h s).contexts ≡ key_at j (remove ℕ_discrete h s.contexts) =
          λ j. ap (key_at j) same in
        record {
          unique =
              subst (IsMap ℕ_discrete) (sym same) (remove-IsMap ℕ_discrete h s.contexts wf.unique);
          placed = λ j k e.
              wf.placed j k (get-remove_cases ℕ_discrete h j k s.contexts (sym (at j) ∙ e)).1;
          published = λ j k e.
              let (other, there) = get-remove_cases ℕ_discrete h j k s.contexts (sym (at j) ∙ e) in
              let (n, named, made) = wf.published j k there in (n, u.others j other ∙ named, made);
          live = λ j n e. elim (ℕ_discrete j h) [
            | yes hit ↦ absurd (cc (hit, e, u.gone))
            | no other ↦
                let (k, there) = wf.live j n (sym (u.others j other) ∙ e) in
                (k, at j ∙ get-remove_other ℕ_discrete h j s.contexts other ∙ there)
          ];
          own = λ n j k e found.
              let (other, there) =
                get-remove_cases ℕ_discrete h j k s.contexts (sym (at j) ∙ found) in
              u.others j other ∙ wf.own n j k (u.old n j e).0 there;
          foreign = λ n j e missing.
              let (before, not_own) = u.old n j e in
              elim (Option-cases (key_at j s.contexts)) [
                | inl none_before ↦ wf.foreign n j before none_before
                | inr (k, there) ↦ elim (ℕ_discrete j h) [
                  | yes hit ↦ absurd (
                      not_own (ap (λ i. key_at i s.names) (sym hit) ∙ wf.own n j k before there)
                        hit)
                  | no other ↦
                      absurd (
                        cc (at j, get-remove_other ℕ_discrete h j s.contexts other, there, missing))
                ]
              ];
          in_range = omega (arith, u.same.next_eq, wf.in_range);
        }

  -- What `save_transient` and `save_persistent` do to the maps: the context `k` is stored at `h` and
  -- its name is published.
  module _ (h : ℕ) (n : N) (k : VtpmKey P C Y) (s : VtpmCache P N C Y F) where
    abbrev pub with_key : VtpmCache P N C Y F
    with_key = record s { contexts = insert ℕ_discrete h k s.contexts }

    pub stored-IsWellFormed :
        IsWellFormed E s
        → k.handle ≡ h
        → E.make_name k.public ≡ some n
        → ((m : N) → get E.name_eq m s.handles ≡ some h → (m ≡ n) ⊎ (key_at h s.names ≡ some m))
        → IsWellFormed E (publish_name E h n with_key)
    stored-IsWellFormed wf placed made only =
        let p : Published E h n with_key (publish_name E h n with_key) =
          publish_name-Published E h n with_key in
        let same = p.same.contexts_eq in
        let at : (j : ℕ)
            → key_at j (publish_name E h n with_key).contexts
              ≡ key_at j (insert ℕ_discrete h k s.contexts) =
          λ j. ap (key_at j) same in
        record {
          unique =
              subst (IsMap ℕ_discrete) (sym same)
                (insert-IsMap ℕ_discrete h k s.contexts wf.unique);
          placed = λ j k' e.
              elim (get-insert_cases ℕ_discrete h j k k' s.contexts (sym (at j) ∙ e)) [
                | inl new ↦ sym (ap (λ (x : VtpmKey P C Y). x.handle) new.1) ∙ placed ∙ sym new.0
                | inr before ↦ wf.placed j k' before.1
              ];
          published = λ j k' e.
              elim (get-insert_cases ℕ_discrete h j k k' s.contexts (sym (at j) ∙ e)) [
                | inl new ↦ (
                  n,
                  ap (λ i. key_at i (publish_name E h n with_key).names) new.0 ∙ p.name_of,
                  sym (ap (λ (x : VtpmKey P C Y). E.make_name x.public) new.1) ∙ made,
                )
                | inr before ↦
                    let (m, named, its) = wf.published j k' before.1 in
                    (m, p.others j before.0 ∙ named, its)
              ];
          live = λ j m e. elim (ℕ_discrete j h) [
            | yes hit ↦ (
              k,
              at j
                  ∙ ap (λ i. key_at i (insert ℕ_discrete h k s.contexts)) hit
                  ∙ get-insert_same ℕ_discrete h k s.contexts,
            )
            | no other ↦
                let (k', there) = wf.live j m (sym (p.others j other) ∙ e) in
                (k', at j ∙ get-insert_other ℕ_discrete h j k s.contexts other ∙ there)
          ];
          own = λ m j k' e found. elim (p.old m j e) [
            | inl new ↦
                ap (λ i. key_at i (publish_name E h n with_key).names) (sym new.1)
                ∙ p.name_of
                ∙ ap some (sym new.0)
            | inr before ↦ elim (ℕ_discrete j h) [
              | yes hit ↦ elim (only m (before.0 ∙ ap some hit)) [
                | inl eq ↦
                    ap (λ i. key_at i (publish_name E h n with_key).names) hit
                    ∙ p.name_of
                    ∙ ap some (sym eq)
                | inr named ↦ absurd (before.1 named hit)
              ]
              | no other ↦
                  elim (get-insert_cases ℕ_discrete h j k k' s.contexts (sym (at j) ∙ found)) [
                    | inl new ↦ absurd (other new.0)
                    | inr there ↦ p.others j other ∙ wf.own m j k' before.0 there.1
                  ]
            ]
          ];
          foreign = λ m j e missing. elim (ℕ_discrete j h) [
            | yes hit ↦ absurd (cc (at j, hit, missing, get-insert_same ℕ_discrete h k s.contexts))
            | no other ↦ elim (p.old m j e) [
              | inl new ↦ absurd (other (sym new.1))
              | inr before ↦
                  wf.foreign m j before.0
                    (sym (at j ∙ get-insert_other ℕ_discrete h j k s.contexts other) ∙ missing)
            ]
          ];
          in_range = omega (arith, p.same.next_eq, wf.in_range);
        }
