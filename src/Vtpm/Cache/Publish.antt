-- ===== src/Vtpm/Cache/Publish.antt =====
-- crates/vtpm/src/lib.rs: what `publish_name` and `unpublish_name` leave in the two indices.
use tpm2_library.Common.{
  ℕ, Option, none, some, ◌≡◌, ◌≢◌, ◌⊎◌, inl, inr, refl, ◌∙◌, arith, ◌==◌, ==_iff, Bool-cases,
}
use tpm2_library.Common.Maps.{
  get, remove, get-remove_same, get-remove_other, get-remove_cases, get-insert_same,
  get-insert_other, get-insert_cases,
}
use native.Mathlib.Decide.{ℕ_discrete}
use tpm2_library.Vtpm.Env.{Env}
use tpm2_library.Vtpm.Cache.{
  VtpmCache, key_at, drop_mapping, unpublish, unpublish_name, publish_name,
}

module _ {P N C Y F : Type 0} (E : Env P N C Y F) where
  -- Only the two indices change.
  pub record SameBut (s t : VtpmCache P N C Y F) : Type 0 where
    pub contexts_eq : t.contexts ≡ s.contexts
    pub dirty_eq : t.dirty ≡ s.dirty
    pub files_eq : t.files ≡ s.files
    pub next_eq : t.next_virtual_handle ≡ s.next_virtual_handle

  -- The handle `h` has no published name, and a mapping that is left is an old one and none of the
  -- name that `h` had published.
  pub record Unpublished (h : ℕ) (s t : VtpmCache P N C Y F) : Type 0 where
    pub same : SameBut s t
    pub gone : key_at h t.names ≡ none
    pub others : (j : ℕ) → j ≢ h → key_at j t.names ≡ key_at j s.names
    pub old :
        (n : N) (j : ℕ)
        → get E.name_eq n t.handles ≡ some j
        → (get E.name_eq n s.handles ≡ some j) × (key_at h s.names ≡ some n → j ≢ h)
    pub kept :
        (n : N) (j : ℕ)
        → j ≢ h
        → get E.name_eq n s.handles ≡ some j
        → get E.name_eq n t.handles ≡ some j

  module _ (h : ℕ) (s : VtpmCache P N C Y F) where
    dropped :
        (n : N)
        → key_at h s.names ≡ some n
        → (found : Option ℕ) → get E.name_eq n s.handles ≡ found
        → Unpublished h s
            (drop_mapping E h n found (record s { names = remove ℕ_discrete h s.names }))
    unfolding drop_mapping
    dropped n e none missing = record {
      same = record { contexts_eq = refl; dirty_eq = refl; files_eq = refl; next_eq = refl };
      gone = get-remove_same ℕ_discrete h s.names;
      others = λ j other. get-remove_other ℕ_discrete h j s.names other;
      old = λ m j there. (there, λ same. cc);
      kept = λ m j other there. there;
    }
    dropped n e (some i) hit = elim (Bool-cases (i == h)) [
      | inl same ↦ rw same (record {
        same = record { contexts_eq = refl; dirty_eq = refl; files_eq = refl; next_eq = refl };
        gone = get-remove_same ℕ_discrete h s.names;
        others = λ j other. get-remove_other ℕ_discrete h j s.names other;
        old = λ m j there.
            let (ne, before) = get-remove_cases E.name_eq n m j s.handles there in
            (before, λ own. absurd (ne (ground (arith, e, own))));
        kept = λ m j other there.
            get-remove_other E.name_eq n m s.handles
              (λ eq. other (ground (arith, eq, there, hit, same, ==_iff i h)))
            ∙ there;
      })
      | inr differs ↦ rw differs (record {
        same = record { contexts_eq = refl; dirty_eq = refl; files_eq = refl; next_eq = refl };
        gone = get-remove_same ℕ_discrete h s.names;
        others = λ j other. get-remove_other ℕ_discrete h j s.names other;
        old = λ m j there. (there, λ own eq. ground (arith, e, own, eq, there, hit, differs));
        kept = λ m j other there. there;
      })
    ]

    unpublished :
        (name : Option N) → key_at h s.names ≡ name → Unpublished h s (unpublish E h name s)
    unfolding unpublish
    unpublished none e = record {
      same = record { contexts_eq = refl; dirty_eq = refl; files_eq = refl; next_eq = refl };
      gone = e;
      others = λ j other. refl;
      old = λ m j there. (there, λ own. cc);
      kept = λ m j other there. there;
    }
    unpublished (some n) e = dropped n e (get E.name_eq n s.handles) refl

    pub unpublish_name-Unpublished : Unpublished h s (unpublish_name E h s)
    unfolding unpublish_name
    unpublish_name-Unpublished = unpublished (key_at h s.names) refl

  -- The handle `h` resolves by the name `n`, which it has published.
  pub record Published (h : ℕ) (n : N) (s t : VtpmCache P N C Y F) : Type 0 where
    pub same : SameBut s t
    pub name_of : key_at h t.names ≡ some n
    pub handle_of : get E.name_eq n t.handles ≡ some h
    pub others : (j : ℕ) → j ≢ h → key_at j t.names ≡ key_at j s.names
    pub old :
        (m : N) (j : ℕ)
        → get E.name_eq m t.handles ≡ some j
        → ((m ≡ n) × (h ≡ j))
          ⊎ ((get E.name_eq m s.handles ≡ some j) × (key_at h s.names ≡ some m → j ≢ h))
    pub kept :
        (m : N) (j : ℕ)
        → m ≢ n
        → j ≢ h
        → get E.name_eq m s.handles ≡ some j
        → get E.name_eq m t.handles ≡ some j

  pub publish_name-Published :
      (h : ℕ) (n : N) (s : VtpmCache P N C Y F) → Published h n s (publish_name E h n s)
  unfolding publish_name
  publish_name-Published h n s =
      let s' = unpublish_name E h s in
      let u : Unpublished h s s' = unpublish_name-Unpublished h s in
      record {
        same = record {
          contexts_eq = u.same.contexts_eq;
          dirty_eq = u.same.dirty_eq;
          files_eq = u.same.files_eq;
          next_eq = u.same.next_eq;
        };
        name_of = get-insert_same ℕ_discrete h n s'.names;
        handle_of = get-insert_same E.name_eq n h s'.handles;
        others = λ j other. get-insert_other ℕ_discrete h j n s'.names other ∙ u.others j other;
        old = λ m j there. elim (get-insert_cases E.name_eq n m h j s'.handles there) [
          | inl new ↦ inl new
          | inr before ↦ inr (u.old m j before.1)
        ];
        kept = λ m j ne other there.
            get-insert_other E.name_eq n m h s'.handles ne ∙ u.kept m j other there;
      }
