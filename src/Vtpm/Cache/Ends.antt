-- ===== src/Vtpm/Cache/Ends.antt =====
-- crates/vtpm/src/lib.rs: the queue loop of `remove_subtree` comes to an end, and so does `remove`.
use tpm2_library.Common.{
  ℕ, zero, suc, ◌+◌, ◌-◌, ◌≤◌, List, [], ◌∷◌, Option, none, some, Result, ok, err, ◌>>=◌, map_err,
  ◌≡◌, ◌≢◌, ◌⊎◌, inl, inr, refl, sym, ap, ◌∙◌, arith, length, Option-cases, Result-cases,
}
use tpm2_library.Common.Maps.{Map}
use tpm2_library.Protocol.Error.{TpmError}
use tpm2_library.Vtpm.Error.{IoError, not_found, other, io, marshal_failed}
use tpm2_library.Vtpm.Disk.{cache_file}
use tpm2_library.Vtpm.Env.{Env, to_vec}
use tpm2_library.Vtpm.Cache.{VtpmKey, VtpmCache, key_at}
use tpm2_library.Vtpm.Cache.Remove.{
  Stop, failed, out_of_fuel, Children, Sweep, deleted_file, delete, forget, children_of, add_child,
  parent_to_children, sweep_children, sweep, remove_subtree, remove_key, remove_context,
}
use tpm2_library.Vtpm.Cache.Subtree.{start}
use tpm2_library.Vtpm.Cache.Sweep.{
  taken, skip_child, take_child, size, size-popped, sweep_children-size, popped, round, encoding,
  sweep-next, sweep-done, sweep_stable, sweep_empties, queue-cases,
}

-- Every failure of a chain has `Q` when the failures of its two halves have it.
pub >>=-fails {ℓ κ μ ν} :
    {X : Type ℓ} {A : Type κ} {B : Type μ} (Q : X → Type ν) (first : Result X A)
    (next : A → Result X B)
    → ((r : X) → first ≡ err r → Q r)
    → ((a : A) → first ≡ ok a → (r : X) → next a ≡ err r → Q r)
    → (r : X) → (first >>= next) ≡ err r
    → Q r
>>=-fails Q (ok a) next early late r e = late a refl r e
>>=-fails Q (err x) next early late r e = early r (cc)

module _ {P N C Y F : Type 0} (E : Env P N C Y F) where
  -- A failed call of the file system, other than on a missing file, or a failed encoding.
  abbrev pub Cause : Stop P N C Y F → Type 0
  Cause r =
      ((code : ℕ) × (t : VtpmCache P N C Y F) × (r ≡ failed (io (other code)) t))
      ⊎ ((reason : TpmError) × (t : VtpmCache P N C Y F) × (r ≡ failed (marshal_failed reason) t))

  encoding-Cause {ℓ} :
      {A : Type ℓ} (s : VtpmCache P N C Y F) (x : Result TpmError A) (r : Stop P N C Y F)
      → map_err (λ e. failed (marshal_failed e) s) x ≡ err r
      → Cause r
  encoding-Cause s (ok a) r e = absurd (cc)
  encoding-Cause s (err reason) r e = inr (reason, s, cc)

  deleted_file-Cause :
      (s : VtpmCache P N C Y F) (x : Option IoError × F) (r : Stop P N C Y F)
      → deleted_file E s x ≡ err r
      → Cause r
  unfolding deleted_file
  deleted_file-Cause s (none, f) r e = absurd (cc)
  deleted_file-Cause s (some not_found, f) r e = absurd (cc)
  deleted_file-Cause s (some (other code), f) r e = inl (code, record s { files = f }, cc)

  delete-Cause :
      (k : VtpmKey P C Y) (s : VtpmCache P N C Y F)
      → (r : Stop P N C Y F) → delete E k s ≡ err r
      → Cause r
  unfolding delete
  delete-Cause k s = deleted_file-Cause s (E.disk.remove_file (cache_file k.handle) s.files)

  table-Cause :
      (s : VtpmCache P N C Y F) (entries : Map ℕ (VtpmKey P C Y)) (table : Children E)
      → (r : Stop P N C Y F) → parent_to_children E s entries table ≡ err r
      → Cause r
  unfolding parent_to_children
  table-Cause s [] table = λ r e. absurd (cc)
  table-Cause s ((h, k) ∷ rest) table =
      >>=-fails Cause _ _ (encoding-Cause s (to_vec E.public_codec k.parent))
        (λ b made. table-Cause s rest (add_child E b (h, k.public) table))

  children-Cause :
      (children : List (ℕ × P)) (w : Sweep E)
      → (r : Stop P N C Y F) → sweep_children E children w ≡ err r
      → Cause r
  unfolding sweep_children
  children-Cause [] w r e = absurd (cc)
  children-Cause ((h, p) ∷ rest) w r e = elim (Option-cases (key_at h w.cache.contexts)) [
    | inl missing ↦ children-Cause rest w r (sym (skip_child E h p rest w missing) ∙ e)
    | inr (k, there) ↦
        >>=-fails Cause (delete E k w.cache) (λ s. sweep_children E rest (taken E h p w s))
          (delete-Cause k w.cache) (λ s gone. children-Cause rest (taken E h p w s)) r
          (sym (take_child E h p rest w k there) ∙ e)
  ]

  sweep-Cause :
      (fuel : ℕ) (table : Children E) (w : Sweep E)
      → size E w ≤ fuel
      → (r : Stop P N C Y F) → sweep E fuel table w ≡ err r
      → Cause r
  sweep-Cause zero table w enough r e = elim (queue-cases E w.queue) [
    | inl empty ↦ absurd (cc (sweep-done E zero table w empty, e))
    | inr (p, queue, full) ↦ absurd (omega (arith, size-popped E w p queue full))
  ]
  sweep-Cause (suc fuel) table w enough r e = elim (queue-cases E w.queue) [
    | inl empty ↦ absurd (cc (sweep-done E (suc fuel) table w empty, e))
    | inr (p, queue, full) ↦
        >>=-fails Cause (encoding E w p) (round E fuel table w queue)
          (encoding-Cause w.cache (to_vec E.public_codec p))
          (λ b made.
            let children = children_of E b table in
            >>=-fails Cause (sweep_children E children (popped E w queue))
              (λ v. sweep E fuel table v) (children-Cause children (popped E w queue))
              (λ v visited. sweep-Cause fuel table v (
                omega (
                  arith,
                  size-popped E w p queue full,
                  sweep_children-size E children (popped E w queue) v visited,
                ))))
          r (sym (sweep-next E fuel table w p queue full) ∙ e)
  ]

  ran_out : ¬ Cause out_of_fuel
  ran_out (inl (code, t, e)) = cc
  ran_out (inr (reason, t, e)) = cc

  -- The queue loop of `remove_subtree` ends, on any table: with one round for each context and one
  -- for the root it does not run out of fuel; where it succeeds the queue is empty; and more rounds
  -- change nothing, whether the loop succeeds or fails.
  pub sweep_terminates :
      (root : P) (s : VtpmCache P N C Y F) (table : Children E) (fuel : ℕ)
      → suc (length s.contexts) ≤ fuel
      → (sweep E fuel table (start E s root) ≢ err out_of_fuel)
        × ((w : Sweep E) → sweep E fuel table (start E s root) ≡ ok w → w.queue ≡ [])
        × (sweep E fuel table (start E s root)
            ≡ sweep E (suc (length s.contexts)) table (start E s root))
  sweep_terminates root s table fuel enough =
      let rounds = suc (length s.contexts) in
      let more : fuel ≡ (fuel - rounds) + rounds = omega arith in
      (
        λ e. ran_out (sweep-Cause fuel table (start E s root) (omega arith) out_of_fuel e),
        λ w. sweep_empties E table fuel (start E s root) w (omega arith),
        ap (λ n. sweep E n table (start E s root)) more
            ∙ sweep_stable E table (fuel - rounds) rounds (start E s root) (omega arith),
      )

  subtree-Cause :
      (root : P) (s : VtpmCache P N C Y F) (r : Stop P N C Y F)
      → remove_subtree E root s ≡ err r
      → Cause r
  unfolding remove_subtree
  subtree-Cause root s =
      >>=-fails Cause _ _ (table-Cause s s.contexts [])
        (λ table built. sweep-Cause (suc (length s.contexts)) table (start E s root) (omega arith))

  key-Cause :
      (h : ℕ) (k : Option (VtpmKey P C Y)) (s : VtpmCache P N C Y F) (r : Stop P N C Y F)
      → remove_key E h k s ≡ err r
      → Cause r
  unfolding remove_key
  key-Cause h none s = λ r e. absurd (cc)
  key-Cause h (some k) s = >>=-fails Cause _ _ (delete-Cause k s) (λ s' gone.
      >>=-fails Cause _ _ (subtree-Cause k.public (forget E h s')) (λ w swept r e. absurd (cc)))

  -- `remove` ends for every handle and every cache, however its keys name their parents: it succeeds,
  -- or it fails because a call of the file system failed for another reason than a missing file, or
  -- because a public area could not be encoded.
  pub remove_terminates :
      (h : ℕ) (s : VtpmCache P N C Y F)
      → ((deleted : List ℕ) × (t : VtpmCache P N C Y F) × (remove_context E h s ≡ ok (deleted, t)))
        ⊎ ((code : ℕ) × (t : VtpmCache P N C Y F) × (remove_context E h s
              ≡ err (failed (io (other code)) t)))
        ⊎ ((reason : TpmError) × (t : VtpmCache P N C Y F) × (remove_context E h s
              ≡ err (failed (marshal_failed reason) t)))
  unfolding remove_context
  remove_terminates h s = elim (Result-cases (remove_context E h s)) [
    | inl ((deleted, t), done) ↦ inl (deleted, t, done)
    | inr (r, broken) ↦ inr (elim (key-Cause h (key_at h s.contexts) s r broken) [
      | inl (code, t, e) ↦ inl (code, t, broken ∙ ap err e)
      | inr (reason, t, e) ↦ inr (reason, t, broken ∙ ap err e)
    ])
  ]
