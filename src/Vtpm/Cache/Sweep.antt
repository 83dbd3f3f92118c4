-- ===== src/Vtpm/Cache/Sweep.antt =====
-- crates/vtpm/src/lib.rs: the rounds of the queue loop of `remove_subtree`, and its end.
use tpm2_library.Common.{
  ℕ, zero, suc, ◌+◌, ◌≤◌, List, [], ◌∷◌, ◌++◌, Option, none, some, ok, err, ◌>>=◌, ◌≡◌, ◌⊎◌, inl,
  inr, refl, sym, ap, ◌∙◌, arith, length, length-append, Option-cases, Result-cases, >>=-ok,
  map_err,
}
use tpm2_library.Common.Maps.{remove, length-remove-lt}
use native.Mathlib.Decide.{ℕ_discrete}
use tpm2_library.Vtpm.Error.{IoError, not_found, other, marshal_failed}
use tpm2_library.Vtpm.Disk.{cache_file}
use tpm2_library.Vtpm.Env.{Env, to_vec}
use tpm2_library.Vtpm.Cache.{VtpmKey, VtpmCache, key_at}
use tpm2_library.Vtpm.Cache.Publish.{unpublish_name-Unpublished}
use tpm2_library.Vtpm.Cache.Keeps.{bare}
use tpm2_library.Vtpm.Cache.Remove.{
  failed, out_of_fuel, Outcome, Children, Sweep, delete, deleted_file, forget, children_of,
  sweep_children, sweep,
}

module _ {P N C Y F : Type 0} (E : Env P N C Y F) where
  -- Only the directory changes.
  pub record Untouched (s t : VtpmCache P N C Y F) : Type 0 where
    pub contexts_eq : t.contexts ≡ s.contexts
    pub handles_eq : t.handles ≡ s.handles
    pub names_eq : t.names ≡ s.names
    pub dirty_eq : t.dirty ≡ s.dirty
    pub next_eq : t.next_virtual_handle ≡ s.next_virtual_handle

  deleted_file-Untouched :
      (s t : VtpmCache P N C Y F) (r : Option IoError × F)
      → deleted_file E s r ≡ ok t
      → Untouched s t
  unfolding deleted_file
  deleted_file-Untouched s t (none, f) e = record {
    contexts_eq = cc;
    handles_eq = cc;
    names_eq = cc;
    dirty_eq = cc;
    next_eq = cc;
  }
  deleted_file-Untouched s t (some not_found, f) e = record {
    contexts_eq = cc;
    handles_eq = cc;
    names_eq = cc;
    dirty_eq = cc;
    next_eq = cc;
  }
  deleted_file-Untouched s t (some (other code), f) e = absurd (cc)

  pub delete-Untouched :
      (k : VtpmKey P C Y) (s t : VtpmCache P N C Y F) → delete E k s ≡ ok t → Untouched s t
  unfolding delete
  delete-Untouched k s t e =
      deleted_file-Untouched s t (E.disk.remove_file (cache_file k.handle) s.files) e

  pub forget-contexts :
      (h : ℕ) (s : VtpmCache P N C Y F) → (forget E h s).contexts ≡ remove ℕ_discrete h s.contexts
  unfolding forget
  forget-contexts h s = (unpublish_name-Unpublished E h (bare E h s)).same.contexts_eq

  -- The loop's variables after the child `p` at `h` is removed from the cache `s`.
  abbrev pub taken : ℕ → P → Sweep E → VtpmCache P N C Y F → Sweep E
  taken h p w s = record {
    cache = forget E h s;
    queue = w.queue ++ (p ∷ []);
    deleted = w.deleted ++ (h ∷ []);
  }

  pub skip_child :
      (h : ℕ) (p : P) (rest : List (ℕ × P)) (w : Sweep E)
      → key_at h w.cache.contexts ≡ none
      → sweep_children E ((h, p) ∷ rest) w ≡ sweep_children E rest w
  unfolding sweep_children
  skip_child h p rest w e = rw (e, sweep_children) refl

  pub take_child :
      (h : ℕ) (p : P) (rest : List (ℕ × P)) (w : Sweep E) (k : VtpmKey P C Y)
      → key_at h w.cache.contexts ≡ some k
      → sweep_children E ((h, p) ∷ rest) w
        ≡ (delete E k w.cache >>= λ s. sweep_children E rest (taken h p w s))
  unfolding sweep_children
  take_child h p rest w k e = rw (e, sweep_children) refl

  -- What is left to do: the elements of the queue, and those that may still come.
  abbrev pub size : Sweep E → ℕ
  size w = length w.queue + length w.cache.contexts

  size-taken :
      (h : ℕ) (p : P) (w : Sweep E) (k : VtpmKey P C Y) (s : VtpmCache P N C Y F)
      → key_at h w.cache.contexts ≡ some k
      → s.contexts ≡ w.cache.contexts
      → size (taken h p w s) ≤ size w
  size-taken h p w k s e same = omega (
    arith,
    length-append w.queue (p ∷ []),
    ap (length {A = ℕ × VtpmKey P C Y}) (forget-contexts h s ∙ ap (remove ℕ_discrete h) same),
    length-remove-lt ℕ_discrete h k w.cache.contexts e,
  )

  pub sweep_children-size :
      (children : List (ℕ × P)) (w w' : Sweep E)
      → sweep_children E children w ≡ ok w'
      → size w' ≤ size w
  unfolding sweep_children
  sweep_children-size [] w w' e =
      let same : w ≡ w' = ground (arith, e) in omega (arith, ap size same)
  sweep_children-size ((h, p) ∷ rest) w w' e = elim (Option-cases (key_at h w.cache.contexts)) [
    | inl missing ↦ sweep_children-size rest w w' (sym (skip_child h p rest w missing) ∙ e)
    | inr (k, there) ↦
        let (s, gone, next) =
          >>=-ok (delete E k w.cache) (λ s. sweep_children E rest (taken h p w s))
            (sym (take_child h p rest w k there) ∙ e) in
        omega (
          arith,
          sweep_children-size rest (taken h p w s) w' next,
          size-taken h p w k s there (delete-Untouched k w.cache s gone).contexts_eq,
        )
  ]

  -- One round, on the queue `p ∷ queue`.
  abbrev pub popped : Sweep E → List P → Sweep E
  popped w queue = record w { queue = queue }

  abbrev pub round : ℕ → Children E → Sweep E → List P → List ℕ → Outcome E (Sweep E)
  round fuel table w queue parent =
      sweep_children E (children_of E parent table) (popped w queue) >>= λ w'. sweep E fuel table w'

  abbrev pub encoding : Sweep E → P → Outcome E (List ℕ)
  encoding w p = map_err (λ e. failed (marshal_failed e) w.cache) (to_vec E.public_codec p)

  pub sweep-next :
      (fuel : ℕ) (table : Children E) (w : Sweep E) (p : P) (queue : List P)
      → w.queue ≡ p ∷ queue
      → sweep E (suc fuel) table w ≡ (encoding w p >>= round fuel table w queue)
  unfolding sweep
  sweep-next fuel table w p queue e = rw (e, sweep) refl

  pub sweep-done :
      (fuel : ℕ) (table : Children E) (w : Sweep E) → w.queue ≡ [] → sweep E fuel table w ≡ ok w
  unfolding sweep
  sweep-done zero table w e = ground (arith, e)
  sweep-done (suc fuel) table w e = ground (arith, e)

  -- Without fuel the loop cannot go on.
  pub sweep-spent :
      (table : Children E) (w : Sweep E) (p : P) (queue : List P)
      → w.queue ≡ p ∷ queue
      → sweep E zero table w ≡ err out_of_fuel
  unfolding sweep
  sweep-spent table w p queue e = rw (e, sweep) refl

  pub queue-cases : (xs : List P) → (xs ≡ []) ⊎ ((p : P) × (rest : List P) × (xs ≡ p ∷ rest))
  queue-cases [] = inl refl
  queue-cases (p ∷ rest) = inr (p, rest, refl)

  pub size-popped :
      (w : Sweep E) (p : P) (queue : List P)
      → w.queue ≡ p ∷ queue
      → size w ≡ suc (size (popped w queue))
  size-popped w p queue e = omega (arith, ap (length {A = P}) e)

  module _ (table : Children E) where
    round_enough :
        (fuel : ℕ) (w : Sweep E) (p : P) (queue : List P) (parent : List ℕ)
        → w.queue ≡ p ∷ queue
        → size w ≤ suc fuel
        → ((v : Sweep E) → size v ≤ fuel → sweep E (suc fuel) table v ≡ sweep E fuel table v)
        → round (suc fuel) table w queue parent ≡ round fuel table w queue parent
    round_enough fuel w p queue parent e enough ih =
        let visited = sweep_children E (children_of E parent table) (popped w queue) in
        elim (Result-cases visited) [
          | inr (reason, broken) ↦ rw broken refl
          | inl (w', done) ↦ rw done (
              ih w' (
                omega (
                  arith,
                  size-popped w p queue e,
                  sweep_children-size (children_of E parent table) (popped w queue) w' done,
                )))
        ]

    -- Fuel for every element of the queue and every context is enough: more of it changes nothing,
    -- whether the loop ends or fails.
    sweep_enough :
        (fuel : ℕ) (w : Sweep E) → size w ≤ fuel → sweep E (suc fuel) table w ≡ sweep E fuel table w
    sweep_enough zero w enough = elim (queue-cases w.queue) [
      | inl e ↦ sweep-done (suc zero) table w e ∙ sym (sweep-done zero table w e)
      | inr (p, queue, e) ↦ absurd (omega (arith, size-popped w p queue e))
    ]
    sweep_enough (suc fuel) w enough = elim (queue-cases w.queue) [
      | inl e ↦ sweep-done (suc (suc fuel)) table w e ∙ sym (sweep-done (suc fuel) table w e)
      | inr (p, queue, e) ↦
          sweep-next (suc fuel) table w p queue e
          ∙ elim (Result-cases (encoding w p)) [
            | inr (reason, broken) ↦ rw broken refl
            | inl (parent, made) ↦
                rw made (round_enough fuel w p queue parent e enough (sweep_enough fuel))
          ]
          ∙ sym (sweep-next fuel table w p queue e)
    ]

    pub sweep_stable :
        (more fuel : ℕ) (w : Sweep E)
        → size w ≤ fuel
        → sweep E (more + fuel) table w ≡ sweep E fuel table w
    sweep_stable zero fuel w enough = ap (λ n. sweep E n table w) (omega arith)
    sweep_stable (suc more) fuel w enough =
        ap (λ n. sweep E n table w) (omega arith)
        ∙ sweep_enough (more + fuel) w (omega arith)
        ∙ sweep_stable more fuel w enough

    -- A loop that has this much fuel and does not fail has emptied the queue.
    pub sweep_empties :
        (fuel : ℕ) (w w' : Sweep E) → size w ≤ fuel → sweep E fuel table w ≡ ok w' → w'.queue ≡ []
    unfolding sweep
    sweep_empties zero w w' enough e = elim (queue-cases w.queue) [
      | inl empty ↦
          let same : w' ≡ w = ground (arith, e, sweep-done zero table w empty) in
          ap (λ (x : Sweep E). x.queue) same ∙ empty
      | inr (p, queue, full) ↦ absurd (omega (arith, size-popped w p queue full))
    ]
    sweep_empties (suc fuel) w w' enough e = elim (queue-cases w.queue) [
      | inl empty ↦
          let same : w' ≡ w = ground (arith, e, sweep-done (suc fuel) table w empty) in
          ap (λ (x : Sweep E). x.queue) same ∙ empty
      | inr (p, queue, full) ↦
          let (parent, made, next) =
            >>=-ok (encoding w p) (round fuel table w queue)
              (sym (sweep-next fuel table w p queue full) ∙ e) in
          let (v, visited, last) =
            >>=-ok (sweep_children E (children_of E parent table) (popped w queue))
              (λ x. sweep E fuel table x) next in
          sweep_empties fuel v w'
            (omega (
              arith,
              size-popped w p queue full,
              sweep_children-size (children_of E parent table) (popped w queue) v visited,
            ))
            last
    ]
