-- ===== src/Vtpm/Cache/Remove.antt =====
-- crates/vtpm/src/lib.rs: `VtpmCache::remove` and `remove_subtree`. The queue loop runs on fuel: each
-- round takes one element off the queue, and each element put on it is the public area of a context
-- that the round removed.
use tpm2_library.Common.{
  ℕ, zero, suc, List, [], ◌∷◌, ◌++◌, Option, none, some, Result, ok, err, ◌>>=◌, map_err, length,
  ◌≡◌, refl, ap, ◌∙◌,
}
use tpm2_library.Common.Maps.{Map, get, remove, insert}
use native.Mathlib.Decide.{ℕ_discrete}
use tpm2_library.Vtpm.Error.{IoError, not_found, other, VtpmError, io, marshal_failed}
use tpm2_library.Vtpm.Disk.{cache_file}
use tpm2_library.Vtpm.Env.{Env, to_vec}
use tpm2_library.Vtpm.Cache.{VtpmKey, VtpmCache, key_at, unpublish_name, without}

pub head_eq : {x y : ℕ} {xs ys : List ℕ} → x ∷ xs ≡ y ∷ ys → x ≡ y
head_eq e = cc

pub tail_eq : {x y : ℕ} {xs ys : List ℕ} → x ∷ xs ≡ y ∷ ys → xs ≡ ys
tail_eq e = cc

-- The keys of the table, byte strings, are compared.
unfoldable pub bytes_discrete : Discrete (List ℕ)
bytes_discrete [] [] = yes refl
bytes_discrete [] (y ∷ ys) = no (λ e. cc)
bytes_discrete (x ∷ xs) [] = no (λ e. cc)
bytes_discrete (x ∷ xs) (y ∷ ys) = elim (bytes_discrete xs ys) [
  | no differs ↦ no (λ e. differs (tail_eq e))
  | yes same ↦ elim (ℕ_discrete x y) [
    | yes head ↦ yes (ap (λ a. a ∷ xs) head ∙ ap (◌∷◌ y) same)
    | no differs ↦ no (λ e. differs (head_eq e))
  ]
]

-- Why a run has no result: an operation that fails leaves the cache as far as it had come; a loop that
-- the model gives too few rounds has none.
pub data Stop (P N C Y F : Type 0) : Type 0 where
  failed : VtpmError → VtpmCache P N C Y F → Stop P N C Y F
  out_of_fuel : Stop P N C Y F

module _ {P N C Y F : Type 0} (E : Env P N C Y F) where
  abbrev pub Outcome : Type 0 → Type 0
  Outcome A = Result (Stop P N C Y F) A

  unfoldable pub deleted_file :
      VtpmCache P N C Y F → Option IoError × F → Outcome (VtpmCache P N C Y F)
  deleted_file s (none, f) = ok (record s { files = f })
  deleted_file s (some not_found, f) = ok (record s { files = f })
  deleted_file s (some (other code), f) = err (failed (io (other code)) (record s { files = f }))

  -- `VtpmKey::delete`
  unfoldable pub delete : VtpmKey P C Y → VtpmCache P N C Y F → Outcome (VtpmCache P N C Y F)
  unfolding deleted_file
  delete k s = deleted_file s (E.disk.remove_file (cache_file k.handle) s.files)

  -- The context leaves the maps: `contexts.remove`, `unpublish_name` and `dirty.remove`.
  unfoldable pub forget : ℕ → VtpmCache P N C Y F → VtpmCache P N C Y F
  unfolding unpublish_name without
  forget h s =
      let s' = unpublish_name E h (record s { contexts = remove ℕ_discrete h s.contexts }) in
      record s' { dirty = without h s'.dirty }

  -- The contexts by the encoding of their parents: `parent_to_children`.
  abbrev pub Children : Type 0
  Children = Map (List ℕ) (List (ℕ × P))

  abbrev pub or_default : Option (List (ℕ × P)) → List (ℕ × P)
  or_default none = []
  or_default (some children) = children

  unfoldable pub children_of : List ℕ → Children → List (ℕ × P)
  children_of parent table = or_default (get bytes_discrete parent table)

  unfoldable pub add_child : List ℕ → ℕ × P → Children → Children
  unfolding children_of
  add_child parent child table =
      insert bytes_discrete parent (children_of parent table ++ (child ∷ [])) table

  unfoldable pub parent_to_children :
      VtpmCache P N C Y F → Map ℕ (VtpmKey P C Y) → Children → Outcome Children
  unfolding add_child to_vec
  parent_to_children s [] table = ok table
  parent_to_children s ((h, k) ∷ rest) table = do
    parent ← map_err (λ e. failed (marshal_failed e) s) (to_vec E.public_codec k.parent)
    parent_to_children s rest (add_child parent (h, k.public) table)

  -- The variables of the loop.
  pub record Sweep : Type 0 where
    pub cache : VtpmCache P N C Y F
    pub queue : List P
    pub deleted : List ℕ

  -- `for (child_virtual_handle, child_public) in children_to_process`
  unfoldable pub sweep_children : List (ℕ × P) → Sweep → Outcome Sweep
  unfolding delete forget
  sweep_children [] w = ok w
  sweep_children ((h, p) ∷ rest) w = elim (key_at h w.cache.contexts) [
    | none ↦ sweep_children rest w
    | some k ↦ delete k w.cache >>= λ s. sweep_children rest (record {
      cache = forget h s;
      queue = w.queue ++ (p ∷ []);
      deleted = w.deleted ++ (h ∷ []);
    })
  ]

  -- `while let Some(parent_public) = ancestor_list.pop_front()`
  unfoldable pub sweep : ℕ → Children → Sweep → Outcome Sweep
  unfolding sweep_children children_of to_vec
  sweep zero table w = elim w.queue [ [] ↦ ok w | p ∷ queue ↦ err out_of_fuel ]
  sweep (suc fuel) table w = elim w.queue [
    | [] ↦ ok w
    | p ∷ queue ↦
        map_err (λ e. failed (marshal_failed e) w.cache) (to_vec E.public_codec p) >>= (λ parent.
          sweep_children (children_of parent table) (record w { queue = queue }) >>= λ w'.
          sweep fuel table w')
  ]

  unfoldable pub remove_subtree : P → VtpmCache P N C Y F → Outcome Sweep
  unfolding sweep parent_to_children
  remove_subtree first s = do
    table ← parent_to_children s s.contexts []
    sweep (suc (length s.contexts)) table (record { cache = s; queue = first ∷ []; deleted = [] })

  unfoldable pub remove_key :
      ℕ → Option (VtpmKey P C Y) → VtpmCache P N C Y F → Outcome (List ℕ × VtpmCache P N C Y F)
  unfolding remove_subtree delete forget
  remove_key h none s = ok ([], s)
  remove_key h (some k) s = do
    s' ← delete k s
    w ← remove_subtree k.public (forget h s')
    ok (h ∷ w.deleted, w.cache)

  unfoldable pub remove_context : ℕ → VtpmCache P N C Y F → Outcome (List ℕ × VtpmCache P N C Y F)
  unfolding remove_key
  remove_context h s = remove_key h (key_at h s.contexts) s
