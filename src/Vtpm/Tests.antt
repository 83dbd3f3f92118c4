-- ===== src/Vtpm/Tests.antt =====
-- Runs of the cache of crates/vtpm on small objects: a public area is a number, the null parent is 0,
-- a name is the public area itself, and no file operation fails.
mod Files
mod PolicyList
mod Records
use tpm2_library.Common.{
  ℕ, zero, suc, ◌<◌, List, [], ◌∷◌, none, some, ok, err, ◌≡◌, ◌≢◌, ◌⊎◌, inl, inr, refl, sym, ap,
  ◌∙◌, arith, ◌==◌, ◌↔◌, Result, if◌then◌else◌,
}
use tpm2_library.Common.Maps.{In, get, insert, remove}
use native.Mathlib.Decide.{ℕ_discrete}
use tpm2_library.Protocol.Error.{TpmError, unexpected_end}
use tpm2_library.Protocol.Writer.{write_bytes, new}
use tpm2_library.Protocol.Constants.Cc.{policy_restart}
use tpm2_library.Protocol.Codec.{Codec}
use tpm2_library.Protocol.Constants.Ht.{discriminant}
use tpm2_library.Vtpm.Error.{
  not_found, other, io, marshal_failed, VtpmError, invalid_policy, invalid_handle_type, no_handles,
}
use tpm2_library.Vtpm.Disk.{Disk}
use tpm2_library.Vtpm.Env.{Env, to_vec}
use tpm2_library.Vtpm.Cache.{
  VtpmKey, VtpmCache, key_at, publish_name, unpublish_name, new_key, find_by_name, candidate,
  next_handle, without,
}
use tpm2_library.Vtpm.Cache.Save.{
  save_transient, save_persistent, fill_vacant, fill_named, find_vacant,
}
use tpm2_library.Vtpm.Cache.Remove.{
  remove_context, remove_key, remove_subtree, sweep, sweep_children, parent_to_children, add_child,
  children_of, Children, Sweep, failed, out_of_fuel, delete, deleted_file, forget, bytes_discrete,
}
use tpm2_library.Vtpm.Cache.Ancestors.{fetch_ancestors, climb, find_public, any_value, physical}
use tpm2_library.Vtpm.Cache.Invariant.{IsWellFormed}
use tpm2_library.Vtpm.Cache.Transient.{
  Stored, IsFull, save_transient-Stored, save_transient-NoHandles_iff,
}
use tpm2_library.Vtpm.Cache.Persistent.{save_persistent_stores}
use tpm2_library.Vtpm.Cache.Lookup.{find_by_name_sound, find_by_name_shadowed}
use tpm2_library.Vtpm.Cache.Prune.{Removed, remove-Removed}
use tpm2_library.Vtpm.Cache.Ends.{sweep_terminates, remove_terminates}
use tpm2_library.Vtpm.Cache.Subtree.{TellsApart, start}
use tpm2_library.Vtpm.Cache.Chain.{
  Rooted, EndsAt, GoesTo, IsClimbed, fetch_ancestors_chain, fetch_ancestors_terminates,
  fetch_ancestors_loops,
}

abbrev number_codec : Codec ℕ
number_codec = record {
  max_size = 1;
  len = λ x. 1;
  marshal = λ x w. write_bytes (x ∷ []) w;
  unmarshal = read_number;
}
  where
    read_number : List ℕ → Result TpmError (ℕ × List ℕ)
    read_number [] = err (unexpected_end 0 1 0)
    read_number (x ∷ xs) = ok (x, xs)

abbrev no_disk : Disk (Unit {0})
no_disk = record {
  write_all = λ path bytes f. (none, f);
  rename = λ a b f. (none, f);
  remove_file = λ path f. (some not_found, f);
  file_len = λ path f. err not_found;
  read = λ path f. err not_found;
}

abbrev env : Env ℕ ℕ ℕ ℕ (Unit {0})
env = record {
  public_eq = ℕ_discrete;
  name_eq = ℕ_discrete;
  public_codec = number_codec;
  context_codec = number_codec;
  is_null = λ p. p == 0;
  make_name = λ p. some p;
  empty_context = 0;
  policy_cc = λ y. policy_restart;
  policy_body = λ y. [];
  policy_len = λ y. 8;
  from_parts = λ cc body. err invalid_policy;
  disk = no_disk;
}

abbrev Cache : Type 0
Cache = VtpmCache ℕ ℕ ℕ ℕ (Unit {0})

abbrev empty : Cache
empty = record {
  contexts = [];
  handles = [];
  names = [];
  dirty = [];
  files = tt;
  next_virtual_handle = 0x80FFFFFF;
}

empty-IsWellFormed : IsWellFormed env empty
unfolding get
empty-IsWellFormed = record {
  unique = λ h k never. absurd never;
  placed = λ h k e. cc;
  published = λ h k e. absurd (cc (e));
  live = λ h n e. absurd (cc (e));
  own = λ n h k e there. cc;
  foreign = λ n h e missing. absurd (cc (e));
  in_range = (omega arith, omega arith);
}

-- The key with public area 1, saved at the last transient handle, and its child 2 at the first.
abbrev parent_key : VtpmKey ℕ ℕ ℕ
parent_key = new_key 0x80FFFFFF 7 1 0 []

abbrev child_key : VtpmKey ℕ ℕ ℕ
child_key = new_key 0x80000000 8 2 1 []

abbrev one : Cache
one = record {
  contexts = (0x80FFFFFF, parent_key) ∷ [];
  handles = (1, 0x80FFFFFF) ∷ [];
  names = (0x80FFFFFF, 1) ∷ [];
  dirty = 0x80FFFFFF ∷ [];
  files = tt;
  next_virtual_handle = 0x80000000;
}

abbrev two : Cache
two = record {
  contexts = (0x80000000, child_key) ∷ ((0x80FFFFFF, parent_key) ∷ []);
  handles = (2, 0x80000000) ∷ ((1, 0x80FFFFFF) ∷ []);
  names = (0x80000000, 2) ∷ ((0x80FFFFFF, 1) ∷ []);
  dirty = 0x80000000 ∷ (0x80FFFFFF ∷ []);
  files = tt;
  next_virtual_handle = 0x80000001;
}

save_one : save_transient env 7 1 0 [] empty ≡ (ok 0x80FFFFFF, one)
unfolding save_transient fill_vacant fill_named find_vacant candidate next_handle publish_name
    unpublish_name get insert remove ℕ_discrete
save_one = refl

save_two : save_transient env 8 2 1 [] one ≡ (ok 0x80000000, two)
unfolding save_transient fill_vacant fill_named find_vacant candidate next_handle publish_name
    unpublish_name get insert remove ℕ_discrete
save_two = refl

number_bytes : (p : ℕ) → to_vec number_codec p ≡ ok (p ∷ [])
unfolding to_vec write_bytes new
number_bytes p = refl

two-TellsApart : TellsApart env two 1
two-TellsApart p h k b below there e f = ground (arith, e, f, number_bytes p, number_bytes k.parent)

save_transient-Stored_example : Stored env 0x80FFFFFF parent_key empty one
save_transient-Stored_example =
    save_transient-Stored env 7 1 0 [] empty 0x80FFFFFF one empty-IsWellFormed save_one

one-IsWellFormed : IsWellFormed env one
one-IsWellFormed =
    (save_transient-Stored env 7 1 0 [] empty 0x80FFFFFF one empty-IsWellFormed save_one).keeps

two-IsWellFormed : IsWellFormed env two
two-IsWellFormed =
    (save_transient-Stored env 8 2 1 [] one 0x80000000 two one-IsWellFormed save_two).keeps

save_transient-NoHandles_iff_example :
    ((save_transient env 8 2 1 [] one).0 ≡ err no_handles) ↔ IsFull env one
save_transient-NoHandles_iff_example =
    save_transient-NoHandles_iff env 8 2 1 [] one one-IsWellFormed

no_mapping :
    (m : ℕ)
    → get ℕ_discrete m two.handles ≡ some 0x81000001
    → (m ≡ 3) ⊎ (key_at 0x81000001 two.names ≡ some m)
unfolding get
no_mapping m e = ground arith

save_persistent_stores_example :
    let (r, t) = save_persistent env 0x81000001 3 0 [] two in
    (r ≡ ok tt)
    × (key_at 0x81000001 t.contexts ≡ some (new_key 0x81000001 0 3 0 []))
    × (get ℕ_discrete 3 t.handles ≡ some 0x81000001)
    × ((j : ℕ) → j ≢ 0x81000001 → key_at j t.contexts ≡ key_at j two.contexts)
    × IsWellFormed env t
unfolding discriminant
save_persistent_stores_example =
    save_persistent_stores env 0x81000001 3 0 [] two 3 two-IsWellFormed refl refl no_mapping

find_two : find_by_name env 2 two ≡ some child_key
unfolding find_by_name get ℕ_discrete
find_two = refl

find_by_name_sound_example :
    (env.make_name 2 ≡ some 2) × (key_at 0x80000000 two.contexts ≡ some child_key)
find_by_name_sound_example = find_by_name_sound env 2 child_key two two-IsWellFormed find_two

at_parent : key_at 0x80FFFFFF two.contexts ≡ some parent_key
unfolding get ℕ_discrete
at_parent = refl

find_by_name_shadowed_example :
    (key_at 0x80FFFFFF (forget env 0x80000005 (publish_name env 0x80000005 1 two)).contexts
      ≡ some parent_key)
    × (find_by_name env 1 (forget env 0x80000005 (publish_name env 0x80000005 1 two)) ≡ none)
find_by_name_shadowed_example =
    find_by_name_shadowed env 0x80000005 0x80FFFFFF 1 parent_key two (omega arith) at_parent refl

-- Both keys are gone: the child is removed with its parent.
abbrev none_left : Cache
none_left = record {
  contexts = [];
  handles = [];
  names = [];
  dirty = [];
  files = tt;
  next_virtual_handle = 0x80000001;
}

remove_both : remove_context env 0x80FFFFFF two ≡ ok (0x80FFFFFF ∷ (0x80000000 ∷ []), none_left)
unfolding remove_context remove_key remove_subtree sweep sweep_children parent_to_children add_child
    children_of delete deleted_file forget unpublish_name get insert remove ℕ_discrete to_vec
    write_bytes new without bytes_discrete
remove_both = refl

remove-Removed_example :
    Removed env 0x80FFFFFF parent_key two (0x80FFFFFF ∷ (0x80000000 ∷ [])) none_left
remove-Removed_example =
    remove-Removed env 0x80FFFFFF parent_key two none_left (0x80FFFFFF ∷ (0x80000000 ∷ []))
      two-TellsApart two-IsWellFormed at_parent remove_both

-- The table of `two`: the parent lies below the null area, the child below the parent.
abbrev table : Children env
table = (1 ∷ [], (0x80000000, 2) ∷ []) ∷ ((0 ∷ [], (0x80FFFFFF, 1) ∷ []) ∷ [])

sweep_terminates_example :
    (sweep env 100 table (start env two 1) ≢ err out_of_fuel)
    × ((w : Sweep env) → sweep env 100 table (start env two 1) ≡ ok w → w.queue ≡ [])
    × (sweep env 100 table (start env two 1) ≡ sweep env 3 table (start env two 1))
sweep_terminates_example = sweep_terminates env 1 two table 100 (omega arith)

remove_terminates_example :
    ((deleted : List ℕ) × (t : Cache) × (remove_context env 0x80FFFFFF two ≡ ok (deleted, t)))
    ⊎ ((code : ℕ) × (t : Cache) × (remove_context env 0x80FFFFFF two
          ≡ err (failed (io (other code)) t)))
    ⊎ ((reason : TpmError) × (t : Cache) × (remove_context env 0x80FFFFFF two
          ≡ err (failed (marshal_failed reason) t)))
remove_terminates_example = remove_terminates env 0x80FFFFFF two

fetch_child : fetch_ancestors env 3 0x80000000 two ≡ some (ok (0x80FFFFFF ∷ (0x80000000 ∷ [])))
unfolding fetch_ancestors climb find_public any_value physical get discriminant ℕ_discrete
fetch_child = refl

not_given : IsClimbed env two 0x80000000
unfolding discriminant
not_given = refl

fetch_ancestors_chain_example :
    Rooted env two (0x80FFFFFF ∷ (0x80000000 ∷ []))
    × EndsAt env two 0x80000000 (0x80FFFFFF ∷ (0x80000000 ∷ []))
fetch_ancestors_chain_example =
    fetch_ancestors_chain env two 0x80000000 3 (0x80FFFFFF ∷ (0x80000000 ∷ [])) two-IsWellFormed
      not_given fetch_child

rank : ℕ → ℕ
rank h = if h == 0x80000000 then 1 else 0

goes_up : (h j : ℕ) → GoesTo env two h j → rank j < rank h
unfolding get find_public ℕ_discrete rank
goes_up h j g = let (k, at, null, hit) = g in ground (arith, at, null, hit)

fetch_ancestors_terminates_example :
    (r : Result VtpmError (List ℕ)) × (fetch_ancestors env 3 0x80000000 two ≡ some r)
unfolding rank
fetch_ancestors_terminates_example =
    fetch_ancestors_terminates env two 0x80000000 rank 3 goes_up (omega arith)

-- A key that is its own parent.
abbrev own_parent : VtpmKey ℕ ℕ ℕ
own_parent = new_key 0x80000000 8 2 2 []

abbrev cyclic : Cache
cyclic = record two { contexts = (0x80000000, own_parent) ∷ [] }

stays : (h : ℕ) → h ≡ 0x80000000 → (j : ℕ) × GoesTo env cyclic h j × (j ≡ 0x80000000)
unfolding get find_public ℕ_discrete
stays h e = (0x80000000, (own_parent, ap (λ i. key_at i cyclic.contexts) e, refl, refl), refl)

fetch_ancestors_loops_example : fetch_ancestors env 5 0x80000000 cyclic ≡ none
unfolding discriminant
fetch_ancestors_loops_example =
    fetch_ancestors_loops env cyclic 0x80000000 (λ h. h ≡ 0x80000000) 5 refl stays refl
