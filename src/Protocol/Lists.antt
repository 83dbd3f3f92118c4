-- ===== src/Protocol/Lists.antt =====
-- crates/protocol/src/basic/list.rs: a TPML, a sequence of items behind its 32-bit count.
-- `Lists.Tpml` has the borrowed view, this file the owned `TpmList<T, CAPACITY>`, whose storage
-- `Slots` models. A method on `&mut self` returns the value as it leaves it, and its result. The
-- item type is given by its codec.
pub mod Tpml
pub mod Refine
pub mod Framing
pub mod Laws
pub mod Roundtrip
use tpm2_library.Common.{
  ℕ, zero, suc, ◌+◌, ◌-◌, ◌*◌, List, [], ◌∷◌, take, set, length, Option, none, some, Bool, ltb, leb,
  ◌==◌, if◌then◌else◌, ok, err, ◌>>=◌, Result, reject_if,
}
use tpm2_library.Common.Nat.{checked_add, usize_max}
use tpm2_library.Protocol.Error.{TpmError, TpmResult, too_many_items, integer_too_large}
use tpm2_library.Protocol.Writer.{Marshal, ◌>>◌, fail, marshal_each}
use tpm2_library.Protocol.Codec.{Codec}
use tpm2_library.Protocol.Slots.{write_each, initialized, uninit}
use tpm2_library.Protocol.Integer
use tpm2_library.Protocol.Integer.{TpmInt}

pub record TpmList (A : Type 0) (capacity : ℕ) : Type 0 where
  pub items : List (Option A)
  pub count : ℕ

module _ {A : Type 0} (capacity : ℕ) where
  unfoldable pub new : TpmList A capacity
  new = record { items = uninit capacity; count = 0 }

  unfoldable pub is_empty : TpmList A capacity → Bool
  is_empty l = l.count == 0

  unfoldable pub try_push : TpmList A capacity → A → TpmList A capacity × TpmResult (Unit {0})
  try_push l item =
      if leb capacity l.count
      then (l, err (too_many_items 0 capacity (l.count + 1)))
      else (record { items = set l.items l.count (some item); count = l.count + 1 }, ok tt)

  -- The body behind `let new_len = self.len.checked_add(slice.len())`.
  unfoldable pub extend_to :
      TpmList A capacity → List A → Option ℕ → TpmList A capacity × TpmResult (Unit {0})
  extend_to l slice none = (l, err (too_many_items 0 capacity usize_max))
  extend_to l slice (some new_len) =
      if ltb capacity new_len
      then (l, err (too_many_items 0 capacity new_len))
      else (record { items = write_each l.items l.count slice; count = new_len }, ok tt)

  unfoldable pub try_extend_from_slice :
      TpmList A capacity → List A → TpmList A capacity × TpmResult (Unit {0})
  unfolding extend_to
  try_extend_from_slice l slice = extend_to l slice (checked_add l.count (length slice))

  unfoldable pub deref : TpmList A capacity → List A
  deref l = initialized (take l.count l.items)

module _ {A : Type 0} (c : Codec A) (capacity : ℕ) where
  abbrev pub max_size : ℕ
  max_size = 4 + c.max_size * capacity

  -- `self.iter().map(TpmSized::len).sum()`
  abbrev pub sum_len : List A → ℕ
  sum_len [] = 0
  sum_len (x ∷ xs) = c.len x + sum_len xs

  unfoldable pub encoded_len : TpmList A capacity → ℕ
  encoded_len l = 4 + sum_len (deref capacity l)

  unfoldable pub marshal_count : TpmList A capacity → Option (TpmInt 4) → Marshal
  marshal_count l none = fail (integer_too_large 0 l.count)
  marshal_count l (some count) =
      Integer.marshal 4 count >> marshal_each c.marshal (deref capacity l)

  unfoldable pub marshal : TpmList A capacity → Marshal
  marshal l = marshal_count l (Integer.try_from 4 l.count)

  -- `for _ in 0..count { … }`
  unfoldable pub read_items :
      ℕ → TpmList A capacity → List ℕ → TpmResult (TpmList A capacity × List ℕ)
  read_items zero list cursor = ok (list, cursor)
  read_items (suc n) list cursor = c.unmarshal cursor >>= λ (item, tail).
      let (list', pushed) = try_push capacity list item in
      pushed >>= λ done. read_items n list' tail

  -- A u32 always fits a usize of 64 bits.
  unfoldable pub unmarshal : List ℕ → TpmResult (TpmList A capacity × List ℕ)
  unmarshal buffer = Integer.unmarshal 4 buffer >>= λ (raw, cursor).
      let count = Integer.value 4 raw in
      reject_if (ltb capacity count) (too_many_items 0 capacity count) >>= λ done.
      read_items count (new capacity) cursor
