-- ===== src/Protocol/Lists/Tpml.antt =====
-- crates/protocol/src/basic/list.rs: `Tpml<CAPACITY>`, the zero-copy view, and `TpmlIter`, the
-- iterator over its items. The view is its bytes; the mutable casts make the same checks. The item
-- type is given by its `cast_prefix`.
pub mod Items
use tpm2_library.Common.{
  ℕ, zero, suc, ◌+◌, ◌-◌, List, [], ◌∷◌, take, drop, length, Option, none, some, Bool, ltb, ◌==◌,
  ok, err, ok_or, ◌>>=◌, ◌>>◌, reject_if, if◌then◌else◌,
}
use tpm2_library.Common.Nat.{checked_add, checked_sub}
use tpm2_library.Protocol.Error.{
  TpmResult, unexpected_end, too_many_items, trailing_data, integer_too_large,
}
use tpm2_library.Protocol.WireBytes.{split_at}
use tpm2_library.Protocol.Integer.{from_be_bytes}

abbrev pub count_len : ℕ
count_len = 4

-- `u32::from_be_bytes([buf[0], buf[1], buf[2], buf[3]])`; each call has checked the length.
unfoldable pub read_count : List ℕ → ℕ
read_count buf = from_be_bytes (take 4 buf)

unfoldable pub count : List ℕ → ℕ
unfolding read_count
count view = read_count view

unfoldable pub items_bytes : List ℕ → List ℕ
items_bytes view = drop count_len view

unfoldable pub is_empty : List ℕ → Bool
unfolding count
is_empty view = count view == 0

unfoldable pub validate_header : ℕ → List ℕ → TpmResult ℕ
validate_header capacity buf = do
  reject_if (ltb (length buf) count_len) (unexpected_end 0 count_len (length buf))
  let item_count = read_count buf
  reject_if (ltb capacity item_count) (too_many_items 0 capacity item_count)
  ok item_count

unfoldable pub validate : ℕ → List ℕ → TpmResult (Unit {0})
validate capacity buf = do n ← validate_header capacity buf; ok tt

unfoldable pub cast : ℕ → List ℕ → TpmResult (List ℕ)
unfolding validate
cast capacity buf = do validate capacity buf; ok buf

abbrev pub CastItem : Type 0
CastItem = List ℕ → TpmResult (List ℕ × List ℕ)

pub record TpmlIter : Type 0 where
  pub buf : List ℕ
  pub remaining : ℕ

unfoldable pub items : List ℕ → TpmlIter
items view = record { buf = items_bytes view; remaining = count view }

module _ (cast_item : CastItem) where
  -- `for _ in 0..count { … }`, over the cursor and the bytes consumed so far.
  unfoldable pub walk_items : ℕ → List ℕ → ℕ → TpmResult ℕ
  walk_items zero cursor consumed = ok consumed
  walk_items (suc n) cursor consumed =
      let before = length cursor in
      cast_item cursor >>= λ (item, tail).
      ok_or (integer_too_large consumed (length tail)) (checked_sub before (length tail))
      >>= λ item_len.
          ok_or (integer_too_large consumed before) (checked_add consumed item_len) >>= λ consumed'.
          walk_items n tail consumed'

  unfoldable pub validate_prefix_items : ℕ → List ℕ → TpmResult ℕ
  validate_prefix_items capacity buf = do
    n ← validate_header capacity buf
    walk_items n (drop count_len buf) count_len

  unfoldable pub validate_items : ℕ → List ℕ → TpmResult (Unit {0})
  validate_items capacity buf = do
    wire_len ← validate_prefix_items capacity buf
    reject_if (ltb wire_len (length buf)) (trailing_data wire_len (length buf - wire_len))

  unfoldable pub cast_items : ℕ → List ℕ → TpmResult (List ℕ)
  cast_items capacity buf = do validate_items capacity buf; ok buf

  unfoldable pub cast_prefix_items : ℕ → List ℕ → TpmResult (List ℕ × List ℕ)
  cast_prefix_items capacity buf = do
    wire_len ← validate_prefix_items capacity buf
    reject_if (ltb (length buf) wire_len) (unexpected_end 0 wire_len (length buf))
    ok (split_at wire_len buf)

  unfoldable pub next_item :
      TpmlIter → TpmResult (List ℕ × List ℕ) → Option (TpmResult (List ℕ)) × TpmlIter
  next_item it (ok (item, tail)) =
      (some (ok item), record { buf = tail; remaining = it.remaining - 1 })
  next_item it (err e) = (some (err e), record { buf = []; remaining = 0 })

  -- `Iterator::next`
  unfoldable pub next : TpmlIter → Option (TpmResult (List ℕ)) × TpmlIter
  unfolding next_item
  next it = if it.remaining == 0 then (none, it) else next_item it (cast_item it.buf)

  -- What a `for` loop over the iterator sees; each round lowers `remaining`.
  unfoldable pub collect : ℕ → TpmlIter → List (TpmResult (List ℕ))
  collect zero it = []
  collect (suc fuel) it = elim ((next it).0) [
    | none ↦ []
    | some item ↦ item ∷ collect fuel (next it).1
  ]
