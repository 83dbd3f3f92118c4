-- ===== src/Protocol/Lists/Refine.antt =====
-- crates/protocol/src/basic/list.rs: `TpmList` against the list of items that it holds.
use tpm2_library.Common.{
  ℕ, ◌+◌, ◌≤◌, ◌<◌, List, [], ◌∷◌, ◌++◌, length, ok, err, ◌≡◌, ap, sym, arith, length-append,
}
use tpm2_library.Common.{◌∙◌}
use native.Mathlib.Decide.{dec_lt}
use tpm2_library.Common.Nat.{usize_mod}
use tpm2_library.Protocol.Error.{too_many_items}
use tpm2_library.Protocol.Slots.{
  filled, filled-nil, set-filled, write_each-filled, initialized-take,
}
use tpm2_library.Protocol.Lists.{TpmList, new, try_push, try_extend_from_slice, deref}

module _ {A : Type 0} (capacity : ℕ) where
  -- The list that holds `xs`.
  abbrev pub holding : List A → TpmList A capacity
  holding xs = record { items = filled capacity xs; count = length xs }

  pub new-holding : new capacity ≡ holding []
  unfolding new
  new-holding = ap (λ c. record { items = c; count = 0 }) (sym (filled-nil capacity))

  pub deref-holding : (xs : List A) → length xs ≤ capacity → deref capacity (holding xs) ≡ xs
  unfolding deref
  deref-holding xs h = initialized-take capacity xs h

  pub try_push-room :
      (xs : List A) (x : A)
      → length xs < capacity
      → try_push capacity (holding xs) x ≡ (holding (xs ++ (x ∷ [])), ok tt)
  unfolding try_push
  try_push-room xs x h = ground (arith, set-filled capacity xs x h, length-append xs (x ∷ []))

  pub try_push-full :
      (xs : List A) (x : A)
      → capacity ≤ length xs
      → try_push capacity (holding xs) x
        ≡ (holding xs, err (too_many_items 0 capacity (length xs + 1)))
  unfolding try_push
  try_push-full xs x h = ground arith

  try_extend-room :
      (xs ys : List A)
      → capacity < usize_mod
      → length xs + length ys ≤ capacity
      → try_extend_from_slice capacity (holding xs) ys ≡ (holding (xs ++ ys), ok tt)
  unfolding try_extend_from_slice
  try_extend-room xs ys k h =
      ground (arith, write_each-filled capacity xs ys h, length-append xs ys)

  try_extend-full :
      (xs ys : List A)
      → length xs + length ys < usize_mod
      → capacity < length xs + length ys
      → try_extend_from_slice capacity (holding xs) ys
        ≡ (holding xs, err (too_many_items 0 capacity (length xs + length ys)))
  unfolding try_extend_from_slice
  try_extend-full xs ys k h = ground arith

  -- With room, a slice comes whole behind the items that the list holds, and they
  -- can be read back.
  pub list_extend_appends :
      (xs ys : List A)
      → capacity < usize_mod
      → length xs + length ys ≤ capacity
      → (try_extend_from_slice capacity (holding xs) ys ≡ (holding (xs ++ ys), ok tt))
        × (deref capacity (try_extend_from_slice capacity (holding xs) ys).0 ≡ xs ++ ys)
  list_extend_appends xs ys cap h = (
    try_extend-room xs ys cap h,
    rw (try_extend-room xs ys cap h)
        (deref-holding (xs ++ ys) (omega (arith, length-append xs ys))),
  )

  -- Pushing an item does what appending the slice of that one item does, and so does its failure:
  -- with room or without, the list and the result are the same.
  pub push_is_extend :
      (xs : List A) (x : A)
      → capacity + 1 < usize_mod
      → length xs ≤ capacity
      → try_push capacity (holding xs) x ≡ try_extend_from_slice capacity (holding xs) (x ∷ [])
  push_is_extend xs x small h = elim (dec_lt (length xs) capacity) [
    | yes room ↦
        try_push-room xs x room ∙ sym (try_extend-room xs (x ∷ []) (omega arith) (omega arith))
    | no full ↦
        try_push-full xs x (omega arith)
        ∙ sym (try_extend-full xs (x ∷ []) (omega arith) (omega arith))
  ]

  -- Without room for all of a slice none of it is appended: the list stays as it was, and the error
  -- tells the count that was wanted.
  pub list_extend_rejects :
      (xs ys : List A)
      → length xs ≤ capacity
      → length xs + length ys < usize_mod
      → capacity < length xs + length ys
      → (try_extend_from_slice capacity (holding xs) ys
          ≡ (holding xs, err (too_many_items 0 capacity (length xs + length ys))))
        × (deref capacity (try_extend_from_slice capacity (holding xs) ys).0 ≡ xs)
  list_extend_rejects xs ys f k h =
      (try_extend-full xs ys k h, rw (try_extend-full xs ys k h) (deref-holding xs f))
