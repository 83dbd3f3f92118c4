-- ===== src/Vtpm/Cache.antt =====
-- crates/vtpm/src/lib.rs: `VtpmKey`, `VtpmCache` and its lookups. A method that can fail
-- after it has changed the cache returns the cache with its error.
pub mod Save
pub mod Remove
pub mod Ancestors
pub mod Publish
pub mod Invariant
pub mod Keeps
pub mod Transient
pub mod Persistent
pub mod Lookup
pub mod Table
pub mod Sweep
pub mod Descent
pub mod Subtree
pub mod Ends
pub mod Prune
pub mod Chain
use tpm2_library.Common.{
  ℕ, zero, suc, ◌+◌, ◌-◌, ◌/◌, ◌%◌, List, [], ◌∷◌, Option, none, some, Result, ok, err, ◌>>=◌, ltb,
  ◌==◌, if◌then◌else◌, ok_or, map,
}
use tpm2_library.Common.Maps.{Map, get, remove, insert}
use native.Mathlib.Decide.{ℕ_discrete}
use tpm2_library.Protocol.Constants.Ht.{TpmHt, persistent, discriminant}
use tpm2_library.Vtpm.Error.{
  IoError, not_found, other, VtpmError, io, no_handles, operation_failed, invalid_handle_type,
}
use tpm2_library.Vtpm.Disk.{cache_file}
use tpm2_library.Vtpm.Env.{Env}

abbrev pub version : ℕ
version = 0x00000002

abbrev pub transient_start : ℕ
transient_start = 0x80000000

abbrev pub transient_end : ℕ
transient_end = 0x80FFFFFF

abbrev pub transient_count : ℕ
transient_count = 0x01000000

-- `(handle.value() >> 24) as u8`
abbrev pub handle_type : ℕ → ℕ
handle_type handle = handle / 16777216 % 256

-- `handle.wrapping_add(n)`
abbrev pub wrapping_add : ℕ → ℕ → ℕ
wrapping_add a b = (a + b) % 4294967296

pub record VtpmKey (P C Y : Type 0) : Type 0 where
  pub key_version : ℕ
  pub handle : ℕ
  pub public : P
  pub parent : P
  pub context : C
  pub policy : List Y

-- `dirty` is a set: only its members matter.
pub record VtpmCache (P N C Y F : Type 0) : Type 0 where
  pub contexts : Map ℕ (VtpmKey P C Y)
  pub handles : Map N ℕ
  pub names : Map ℕ N
  pub dirty : List ℕ
  pub files : F
  pub next_virtual_handle : ℕ

abbrev pub key_at : {V : Type 0} → ℕ → Map ℕ V → Option V
key_at = get ℕ_discrete

-- `if next > TRANSIENT_END { TRANSIENT_START } else { next }` for the handle after `handle`
unfoldable pub next_handle : ℕ → ℕ
next_handle handle =
    let next = wrapping_add handle 1 in if ltb transient_end next then transient_start else next

-- The handle that the search tries `i` places after `start`.
unfoldable pub candidate : ℕ → ℕ → ℕ
candidate start i =
    let handle = wrapping_add start i in
    if ltb transient_end handle then transient_start + (handle - transient_end - 1) else handle

unfoldable pub without : ℕ → List ℕ → List ℕ
without h [] = []
without h (x ∷ xs) = let rest = without h xs in if x == h then rest else x ∷ rest

module _ {P N C Y F : Type 0} (E : Env P N C Y F) where
  drop_mapping : ℕ → N → Option ℕ → VtpmCache P N C Y F → VtpmCache P N C Y F
  drop_mapping h n none s = s
  drop_mapping h n (some j) s =
      if j == h then record s { handles = remove E.name_eq n s.handles } else s

  unpublish : ℕ → Option N → VtpmCache P N C Y F → VtpmCache P N C Y F
  unfolding drop_mapping
  unpublish h none s = s
  unpublish h (some n) s =
      drop_mapping h n (get E.name_eq n s.handles)
        (record s { names = remove ℕ_discrete h s.names })

  unfoldable pub unpublish_name : ℕ → VtpmCache P N C Y F → VtpmCache P N C Y F
  unfolding unpublish
  unpublish_name h s = unpublish h (key_at h s.names) s

  unfoldable pub publish_name : ℕ → N → VtpmCache P N C Y F → VtpmCache P N C Y F
  unfolding unpublish_name
  publish_name h n s =
      let s' = unpublish_name h s in
      record s' {
        handles = insert E.name_eq n h s'.handles;
        names = insert ℕ_discrete h n s'.names;
      }

  unfoldable pub find_by_handle : ℕ → VtpmCache P N C Y F → Option (VtpmKey P C Y)
  find_by_handle h s = key_at h s.contexts

  unfoldable pub find_by_name : N → VtpmCache P N C Y F → Option (VtpmKey P C Y)
  find_by_name n s = elim (get E.name_eq n s.handles) [ none ↦ none | some h ↦ key_at h s.contexts ]

  abbrev pub mark_dirty : ℕ → VtpmCache P N C Y F → VtpmCache P N C Y F
  mark_dirty h s = record s { dirty = h ∷ s.dirty }

module _ {P C Y : Type 0} where
  abbrev pub new_key : ℕ → C → P → P → List Y → VtpmKey P C Y
  new_key h context public parent policy = record {
    key_version = version;
    handle = h;
    public = public;
    parent = parent;
    context = context;
    policy = policy;
  }
