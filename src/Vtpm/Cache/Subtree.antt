-- ===== src/Vtpm/Cache/Subtree.antt =====
-- crates/vtpm/src/lib.rs: `remove_subtree` removes the descendants of a key, and nothing else.
use tpm2_library.Common.{
  ℕ, zero, suc, List, [], ◌∷◌, none, some, ok, ◌≡◌, ◌↔◌, inl, inr, refl, sym, ap, ◌∙◌, arith, subst,
  length, Option-cases, >>=-ok, map_err-ok,
}
use tpm2_library.Common.Maps.{IsMap, In}
use native.Mathlib.Decide.{ℕ_discrete}
use tpm2_library.Vtpm.Error.{marshal_failed}
use tpm2_library.Vtpm.Env.{Env, to_vec}
use tpm2_library.Vtpm.Cache.{VtpmKey, VtpmCache, key_at}
use tpm2_library.Vtpm.Cache.Invariant.{IsWellFormed}
use tpm2_library.Vtpm.Cache.Table.{table_sound, table_complete}
use tpm2_library.Vtpm.Cache.Remove.{
  failed, Children, Sweep, children_of, parent_to_children, sweep_children, sweep, remove_subtree,
}
use tpm2_library.Vtpm.Cache.Descent.{Reached, reached_root, reached_child, Gone, Inv, visit-Inv}
use tpm2_library.Vtpm.Cache.Sweep.{
  popped, round, encoding, sweep-next, sweep-done, sweep-spent, sweep_empties, queue-cases,
}

module _ {P N C Y F : Type 0} (E : Env P N C Y F) where
  -- The encoding of a public area at or below the root is that of a context's parent only where the
  -- two are the same area.
  abbrev pub TellsApart : VtpmCache P N C Y F → P → Type 0
  TellsApart s root =
      (p : P) (h : ℕ) (k : VtpmKey P C Y) (b : List ℕ)
      → Reached E s root p
      → key_at h s.contexts ≡ some k
      → to_vec E.public_codec p ≡ ok b
      → to_vec E.public_codec k.parent ≡ ok b
      → p ≡ k.parent

  module _ (s : VtpmCache P N C Y F) (root : P) where
    module _ (unique : IsMap ℕ_discrete s.contexts) (table : Children E)
        (built : parent_to_children E s s.contexts [] ≡ ok table) (apart : TellsApart s root) where
      pop-Inv :
          (w : Sweep E) (p : P) (queue : List P) (b : List ℕ)
          → w.queue ≡ p ∷ queue
          → to_vec E.public_codec p ≡ ok b
          → Inv E s root [] w
          → Inv E s root (children_of E b table) (popped E w queue)
      pop-Inv w p queue b e made i = record {
        wf = i.wf;
        subset = i.subset;
        below = i.below;
        queued = λ q inside. i.queued q (subst (In q) (sym e) (inr inside));
        waiting = λ h q inside.
            let (k, there, encoded, its) = table_sound E s unique table built b h q inside in
            (
              k,
              there,
              its,
              let below = i.queued p (subst (In p) (sym e) (inl refl)) in
                  subst (Reached E s root) (apart p h k b below there made encoded) below,
            );
        covered = λ h k there gone. elim (i.covered h k there gone) [
          | inr (q, never) ↦ absurd never
          | inl inside ↦ elim (subst (In k.parent) e inside) [
            | inr later ↦ inl later
            | inl here ↦ inr (
              k.public,
              table_complete E s unique table built b h k (i.subset h k there)
                  (ap (to_vec E.public_codec) here ∙ made),
            )
          ]
        ];
        listed = i.listed;
        complete = i.complete;
      }

      sweep-Inv :
          (fuel : ℕ) (w w' : Sweep E)
          → sweep E fuel table w ≡ ok w'
          → Inv E s root [] w
          → Inv E s root [] w'
      unfolding sweep
      sweep-Inv zero w w' e i = elim (queue-cases E w.queue) [
        | inl empty ↦ subst (Inv E s root []) (ground (arith, e, sweep-done E zero table w empty)) i
        | inr (p, queue, full) ↦ absurd (cc (sweep-spent E table w p queue full, e))
      ]
      sweep-Inv (suc fuel) w w' e i = elim (queue-cases E w.queue) [
        | inl empty ↦
            subst (Inv E s root []) (ground (arith, e, sweep-done E (suc fuel) table w empty)) i
        | inr (p, queue, full) ↦
            let (b, made, next) =
              >>=-ok (encoding E w p) (round E fuel table w queue)
                (sym (sweep-next E fuel table w p queue full) ∙ e) in
            let (v, visited, last) =
              >>=-ok (sweep_children E (children_of E b table) (popped E w queue))
                (λ x. sweep E fuel table x) next in
            sweep-Inv fuel v w' last (
              visit-Inv E s root (children_of E b table) (popped E w queue) v visited (
                pop-Inv w p queue b full
                  (map_err-ok (λ e. failed (marshal_failed e) w.cache) (to_vec E.public_codec p)
                    made)
                  i))
      ]

    abbrev pub start : Sweep E
    start = record { cache = s; queue = root ∷ []; deleted = [] }

    start-Inv : IsWellFormed E s → Inv E s root [] start
    start-Inv wf = record {
      wf = wf;
      subset = λ h k e. e;
      below = λ h k e missing. absurd (cc (e, missing));
      queued = λ p inside. elim inside [ inl eq ↦ reached_root p eq | inr never ↦ absurd never ];
      waiting = λ h p never. absurd never;
      covered = λ h k e gone. elim gone [
        | inl eq ↦ inl (inl eq)
        | inr (j, i, there, missing, its) ↦ absurd (cc (there, missing))
      ];
      listed = λ h never. absurd never;
      complete = λ h k e missing. absurd (cc (e, missing));
    }

    -- With nothing left to do, every public area below the root has lost its context.
    queue_exhausted :
        (w : Sweep E)
        → Inv E s root [] w
        → w.queue ≡ []
        → (p : P) → Reached E s root p
        → Gone E s root w p
    queue_exhausted w i empty p (reached_root _ e) = inl e
    queue_exhausted w i empty p (reached_child _ h k there its parent) =
        elim (Option-cases (key_at h w.cache.contexts)) [
          | inl missing ↦ inr (h, k, there, missing, its)
          | inr (x, left) ↦
              let same : x ≡ k = ground (arith, there, i.subset h x left) in
              elim (i.covered h x left (
                subst (λ (y : VtpmKey P C Y). Gone E s root w y.parent) (sym same)
                  (queue_exhausted w i empty k.parent parent))) [
                    | inl inside ↦ absurd (subst (In x.parent) empty inside)
                    | inr (q, never) ↦ absurd never
                  ]
        ]

  -- What `remove_subtree` and `remove` leave: exactly the contexts that do not lie below the root, the
  -- list of the removed ones, and a well-formed cache.
  pub record Pruned (s t : VtpmCache P N C Y F) (root : P) (deleted : List ℕ) : Type 0 where
    pub left :
        (h : ℕ) (k : VtpmKey P C Y)
        → (key_at h t.contexts ≡ some k)
          ↔ ((key_at h s.contexts ≡ some k) × ¬ Reached E s root k.parent)
    pub listed :
        (h : ℕ)
        → In h deleted
          ↔ ((k : VtpmKey P C Y) × (key_at h s.contexts ≡ some k) × Reached E s root k.parent)
    pub keeps : IsWellFormed E t

  pub remove_subtree-Pruned :
      (root : P) (s : VtpmCache P N C Y F) (w : Sweep E)
      → TellsApart s root
      → IsWellFormed E s
      → remove_subtree E root s ≡ ok w
      → Pruned s w.cache root w.deleted
  unfolding remove_subtree
  remove_subtree-Pruned root s w apart wf e =
      let (table, built, swept) =
        >>=-ok (parent_to_children E s s.contexts [])
          (λ table. sweep E (suc (length s.contexts)) table (start s root)) e in
      let i : Inv E s root [] w =
        sweep-Inv s root wf.unique table built apart (suc (length s.contexts)) (start s root) w
          swept (start-Inv s root wf) in
      let empty =
        sweep_empties E table (suc (length s.contexts)) (start s root) w (omega arith) swept in
      let gone : (h : ℕ) (k : VtpmKey P C Y)
          → key_at h s.contexts ≡ some k
          → Reached E s root k.parent
          → key_at h w.cache.contexts ≡ none =
        λ h k there below. elim (Option-cases (key_at h w.cache.contexts)) [
          | inl missing ↦ missing
          | inr (x, left) ↦
              let same : x ≡ k = ground (arith, there, i.subset h x left) in
              elim (i.covered h x left (
                subst (λ (y : VtpmKey P C Y). Gone E s root w y.parent) (sym same)
                  (queue_exhausted s root w i empty k.parent below))) [
                    | inl inside ↦ absurd (subst (In x.parent) empty inside)
                    | inr (q, never) ↦ absurd never
                  ]
        ] in
      record {
        left = λ h k. (
          λ there. (i.subset h k there, λ below. cc (gone h k (i.subset h k there) below, there)),
          λ (there, above). elim (Option-cases (key_at h w.cache.contexts)) [
            | inl missing ↦ absurd (above (i.below h k there missing))
            | inr (x, left) ↦ left ∙ sym (i.subset h x left) ∙ there
          ],
        );
        listed = λ h. (
          λ inside.
              let (missing, known) = i.listed h inside in
              let (k, there) = known in (k, there, i.below h k there missing),
          λ (k, there, below). i.complete h k there (gone h k there below),
        );
        keeps = i.wf;
      }
