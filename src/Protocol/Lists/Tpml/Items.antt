-- ===== src/Protocol/Lists/Tpml/Items.antt =====
-- What the typed casts accept, and what iterating over an accepted list yields.
use tpm2_library.Common.{
  ℕ, zero, suc, ◌+◌, ◌-◌, ◌≤◌, List, [], ◌∷◌, ◌++◌, map, drop, length, ok, ◌≡◌, refl, ap, sym, ◌∙◌,
  arith, append_assoc, append-nil, length-append, length-drop, >>=-ok, ok_or, some, subst,
  reject_if, length-zero, ◌>>=◌, Bool-cases, ltb, inl, inr,
}
use mathlib.Core.List.{flatten}
use tpm2_library.Common.Nat.{checked_add, checked_sub, usize_mod}
use tpm2_library.Protocol.Error.{TpmResult, integer_too_large, trailing_data}
use tpm2_library.Protocol.Lists.Tpml.{
  CastItem, TpmlIter, count_len, count, items_bytes, items, validate_header, walk_items,
  validate_prefix_items, validate_items, cast_items, next, collect,
}

-- What `cast_prefix` documents: the item is the front of the input and the remainder is the rest.
abbrev pub Splits : CastItem → Type 0
Splits cast_item = (buf item tail : List ℕ) → cast_item buf ≡ ok (item, tail) → buf ≡ item ++ tail

module _ (cast_item : CastItem) (splits : Splits cast_item) where
  -- The items at the front of `buf`, `n` of them, and the bytes behind them.
  pub data Run : ℕ → List ℕ → List (List ℕ) → List ℕ → Type 0 where
    stop : {buf : List ℕ} → Run zero buf [] buf
    more :
        {n : ℕ} {buf item tail rest : List ℕ} {its : List (List ℕ)}
        → cast_item buf ≡ ok (item, tail)
        → Run n tail its rest
        → Run (suc n) buf (item ∷ its) rest

  record Walked (n : ℕ) (cursor : List ℕ) (consumed total : ℕ) : Type 0 where
    its : List (List ℕ)
    rest : List ℕ
    run : Run n cursor its rest
    split : cursor ≡ flatten its ++ rest
    counted : total ≡ consumed + length (flatten its)

  -- One round: the item's length is that of its bytes.
  round_length :
      (cursor item tail : List ℕ)
      → cursor ≡ item ++ tail
      → checked_sub (length cursor) (length tail) ≡ some (length item)
  round_length cursor item tail e = ground (arith, ap length e, length-append item tail)

  round_step :
      (cursor item tail : List ℕ) (consumed total : ℕ)
      → cursor ≡ item ++ tail
      → (next : ℕ → TpmResult ℕ)
      → (ok_or
            (integer_too_large consumed (length tail))
            (checked_sub (length cursor) (length tail))
          >>= λ item_len.
              ok_or (integer_too_large consumed (length cursor)) (checked_add consumed item_len)
              >>= next)
        ≡ ok total
      → next (consumed + length item) ≡ ok total
  round_step cursor item tail consumed total split next e =
      let e' = rw (round_length cursor item tail split) at e in
      elim (Bool-cases (ltb (consumed + length item) usize_mod)) [
        | inl small ↦ rw small at e'
        | inr large ↦ cc (rw large at e')
      ]

  Walked-more :
      (n : ℕ) (cursor item tail : List ℕ) (consumed total : ℕ)
      → cast_item cursor ≡ ok (item, tail)
      → Walked n tail (consumed + length item) total
      → Walked (suc n) cursor consumed total
  unfolding flatten
  Walked-more n cursor item tail consumed total c w = record {
    its = item ∷ w.its;
    rest = w.rest;
    run = more c w.run;
    split =
        splits cursor item tail c
        ∙ ap (λ t. item ++ t) w.split
        ∙ sym (append_assoc item (flatten w.its) w.rest);
    counted = omega (arith, w.counted, length-append item (flatten w.its));
  }

  walk_items-Walked :
      (n : ℕ) (cursor : List ℕ) (consumed total : ℕ)
      → walk_items cast_item n cursor consumed ≡ ok total
      → Walked n cursor consumed total
  unfolding walk_items flatten
  walk_items-Walked zero cursor consumed total e = record {
    its = [];
    rest = cursor;
    run = stop;
    split = refl;
    counted = ground arith;
  }
  walk_items-Walked (suc n) cursor consumed total e =
      let (read, c, e₁) = >>=-ok (cast_item cursor) _ e in
      let split = splits cursor read.0 read.1 c in
      Walked-more n cursor read.0 read.1 consumed total c (
        walk_items-Walked n read.1 (consumed + length read.0) total
          (round_step cursor read.0 read.1 consumed total split (walk_items cast_item n read.1) e₁))

  next-ok :
      (n : ℕ) (buf item tail : List ℕ)
      → cast_item buf ≡ ok (item, tail)
      → next cast_item (record { buf = buf; remaining = suc n })
        ≡ (some (ok item), record { buf = tail; remaining = n })
  unfolding next
  next-ok n buf item tail c = ground arith

  collect_step :
      (fuel : ℕ) (it it' : TpmlIter) (item : TpmResult (List ℕ))
      → next cast_item it ≡ (some item, it')
      → collect cast_item (suc fuel) it ≡ item ∷ collect cast_item fuel it'
  unfolding collect
  collect_step fuel it it' item e = rw (e, collect) (ap (λ x. item ∷ collect cast_item fuel x.1) e)

  collect-Run :
      {n : ℕ} {buf rest : List ℕ} {its : List (List ℕ)}
      → Run n buf its rest
      → (collect cast_item (suc n) (record { buf = buf; remaining = n }) ≡ map ok its)
        × (length its ≡ n)
  collect-Run stop = (unfold collect next in refl, refl)
  collect-Run (more {n = n} {buf = buf} {item = item} {tail = tail} c r) =
      let (same, count) = collect-Run r in
      (
        collect_step (suc n) _ _ (ok item) (next-ok n buf item tail c) ∙ ap (λ t. ok item ∷ t) same,
        ap suc count,
      )

  header_facts :
      (capacity : ℕ) (buf : List ℕ) (n : ℕ)
      → validate_header capacity buf ≡ ok n
      → (n ≡ count buf) × (n ≤ capacity) × (4 ≤ length buf)
  unfolding validate_header count
  header_facts capacity buf n e = ground arith

  exact_facts :
      (wire_len : ℕ) (buf : List ℕ)
      → reject_if (ltb wire_len (length buf)) (trailing_data wire_len (length buf - wire_len))
        ≡ ok tt
      → length buf ≤ wire_len
  exact_facts wire_len buf e = ground arith

  no_rest :
      (buf rest : List ℕ) (its : List (List ℕ)) (wire_len : ℕ)
      → drop 4 buf ≡ flatten its ++ rest
      → wire_len ≡ 4 + length (flatten its)
      → length buf ≤ wire_len
      → drop 4 buf ≡ flatten its
  no_rest buf rest its wire_len split counted short =
      let none_left : length rest ≡ 0 =
        omega (arith, ap length split, length-append (flatten its) rest, length-drop 4 buf) in
      split ∙ ap (λ t. flatten its ++ t) (length-zero rest none_left) ∙ append-nil (flatten its)

  -- An accepted list, iterated over to the end, yields exactly the declared number of items, each
  -- of them a success, and their bytes one behind the other are the whole item area.
  pub cast_items-collect :
      (capacity : ℕ) (buf view : List ℕ)
      → cast_items cast_item capacity buf ≡ ok view
      → (view ≡ buf)
        × (count view ≤ capacity)
        × (its : List (List ℕ)) × (collect cast_item (suc (count view)) (items view) ≡ map ok its)
        × (length its ≡ count view)
        × (items_bytes view ≡ flatten its)
  unfolding cast_items validate_items validate_prefix_items items items_bytes
  cast_items-collect capacity buf view e =
      let (done, valid, same) = >>=-ok (validate_items cast_item capacity buf) _ e in
      let (wire_len, walked, exact) =
        >>=-ok (validate_prefix_items cast_item capacity buf) _ valid in
      let (n, header, walk) = >>=-ok (validate_header capacity buf) _ walked in
      let (counted, small, _) = header_facts capacity buf n header in
      let w = walk_items-Walked n (drop count_len buf) count_len wire_len walk in
      let (yielded, number) = collect-Run w.run in
      let is_buf : buf ≡ view = cc same in
      (
        sym is_buf,
        subst (λ v. count v ≤ capacity) is_buf (omega arith),
        w.its,
        subst (λ v. collect cast_item (suc (count v)) (items v) ≡ map ok w.its) is_buf
            (subst
              (λ k.
                collect cast_item (suc k) (record { buf = drop 4 buf; remaining = k })
                ≡ map ok w.its)
              counted yielded),
        number ∙ counted ∙ ap count is_buf,
        ap items_bytes (sym is_buf)
            ∙ no_rest buf w.rest w.its wire_len w.split w.counted (exact_facts wire_len buf exact),
      )
