-- ===== src/Protocol/Buffer/Refine.antt =====
-- crates/protocol/src/basic/buffer.rs: `TpmBuffer` against the byte string that it holds.
use tpm2_library.Common.{
  ℕ, ◌+◌, ◌-◌, ◌≤◌, ◌<◌, List, [], ◌∷◌, ◌++◌, length, ok, err, ◌≡◌, ap, sym, arith, length-append,
  ◌⊎◌,
}
use tpm2_library.Common.{◌↔◌, ◌∙◌, inl, inr}
use tpm2_library.Common.Nat.{usize_mod}
use native.Mathlib.Decide.{dec_lt, dec_le}
use tpm2_library.Protocol.Error.{TpmError, buffer_overflow}
use tpm2_library.Protocol.Slots.{
  filled, filled-nil, set-filled, write_each-filled, initialized-take,
}
use tpm2_library.Protocol.Buffer.{
  TpmBuffer, new, try_push, try_extend_from_slice, deref, try_from, u16_max,
}

module _ (capacity : ℕ) where
  -- The buffer that holds `xs`.
  abbrev pub holding : List ℕ → TpmBuffer capacity
  holding xs = record { size = length xs; data_cells = filled capacity xs }

  abbrev pub Fits : List ℕ → Type 0
  Fits xs = (length xs ≤ capacity) × (length xs ≤ u16_max)

  pub new-holding : new capacity ≡ holding []
  unfolding new
  new-holding = ap (λ c. record { size = 0; data_cells = c }) (sym (filled-nil capacity))

  pub deref-holding : (xs : List ℕ) → Fits xs → deref capacity (holding xs) ≡ xs
  unfolding deref
  deref-holding xs f = initialized-take capacity xs f.0

  pub try_push-room :
      (xs : List ℕ) (byte : ℕ)
      → length xs < capacity
      → length xs < u16_max
      → try_push capacity (holding xs) byte ≡ (holding (xs ++ (byte ∷ [])), ok tt)
  unfolding try_push
  try_push-room xs byte h k =
      ground (arith, set-filled capacity xs byte h, length-append xs (byte ∷ []))

  pub try_extend-room :
      (xs ys : List ℕ)
      → length xs + length ys ≤ capacity
      → length xs + length ys ≤ u16_max
      → try_extend_from_slice capacity (holding xs) ys ≡ (holding (xs ++ ys), ok tt)
  unfolding try_extend_from_slice
  try_extend-room xs ys h k =
      ground (arith, write_each-filled capacity xs ys h, length-append xs ys)

  try_push-full :
      (xs : List ℕ) (byte : ℕ)
      → Fits xs
      → (capacity ≤ length xs) ⊎ (u16_max ≤ length xs)
      → try_push capacity (holding xs) byte
        ≡ (holding xs, err (buffer_overflow (length xs) 1 (capacity - length xs)))
  unfolding try_push
  try_push-full xs byte f h = ground arith

  -- With room in the storage and in the 16-bit length, a pushed byte comes behind the bytes that
  -- the buffer holds, and they can be read back.
  pub try_push_appends :
      (xs : List ℕ) (byte : ℕ)
      → length xs < capacity
      → length xs < u16_max
      → (try_push capacity (holding xs) byte ≡ (holding (xs ++ (byte ∷ [])), ok tt))
        × (deref capacity (try_push capacity (holding xs) byte).0 ≡ xs ++ (byte ∷ []))
  try_push_appends xs byte h k = (
    try_push-room xs byte h k,
    rw (try_push-room xs byte h k)
        (deref-holding (xs ++ (byte ∷ [])) (omega (arith, length-append xs (byte ∷ [])))),
  )

  -- With room in the storage and in the 16-bit length, a slice comes whole behind the bytes that
  -- the buffer holds, and they can be read back.
  pub try_extend_appends :
      (xs ys : List ℕ)
      → length xs + length ys ≤ capacity
      → length xs + length ys ≤ u16_max
      → (try_extend_from_slice capacity (holding xs) ys ≡ (holding (xs ++ ys), ok tt))
        × (deref capacity (try_extend_from_slice capacity (holding xs) ys).0 ≡ xs ++ ys)
  try_extend_appends xs ys h k = (
    try_extend-room xs ys h k,
    rw (try_extend-room xs ys h k) (deref-holding (xs ++ ys) (omega (arith, length-append xs ys))),
  )

  try_extend_fails :
      (xs ys : List ℕ)
      → (capacity < length xs + length ys) ⊎ (u16_max < length xs + length ys)
      → (e : TpmError) × (try_extend_from_slice capacity (holding xs) ys ≡ (holding xs, err e))
  unfolding try_extend_from_slice
  try_extend_fails xs ys h = elim (dec_lt (length xs + length ys) usize_mod) [
    | no large ↦ (buffer_overflow (length xs) (length ys) (capacity - length xs), ground arith)
    | yes small ↦ elim (dec_lt capacity (length xs + length ys)) [
      | yes over ↦ (buffer_overflow (length xs) (length ys) (capacity - length xs), ground arith)
      | no fits ↦ (buffer_overflow (length xs) (length ys) (u16_max - length xs), ground arith)
    ]
  ]

  -- Where the storage or the 16-bit length has no room left, pushing a byte and appending a slice
  -- that is not empty both leave the buffer as it was and fail.
  pub buffer_full :
      (xs ys : List ℕ) (byte : ℕ)
      → 0 < length ys
      → Fits xs
      → (capacity ≤ length xs) ⊎ (u16_max ≤ length xs)
      → (e e' : TpmError) × (try_push capacity (holding xs) byte ≡ (holding xs, err e))
        × (try_extend_from_slice capacity (holding xs) ys ≡ (holding xs, err e'))
  buffer_full xs ys byte one f h =
      let (e', fails) = try_extend_fails xs ys (omega arith) in
      (buffer_overflow (length xs) 1 (capacity - length xs), e', try_push-full xs byte f h, fails)

  pub try_from-room : (xs : List ℕ) → Fits xs → try_from capacity xs ≡ ok (holding xs)
  unfolding try_from
  try_from-room xs f = rw (new-holding, try_extend-room [] xs (omega arith) (omega arith))

  refuses :
      (xs : List ℕ)
      → (capacity < length xs) ⊎ (u16_max < length xs)
      → (e : TpmError) × (try_from capacity xs ≡ err e)
  unfolding try_from
  refuses xs h = let (e, eq) = try_extend_fails [] xs (omega arith) in (e, rw (new-holding, eq))

  -- A slice makes a buffer exactly where it fits the storage and the 16-bit length, and the buffer
  -- then holds the slice.
  pub try_from_iff :
      (xs : List ℕ) (b : TpmBuffer capacity)
      → (try_from capacity xs ≡ ok b) ↔ (Fits xs × (holding xs ≡ b))
  try_from_iff xs b = (there, λ (f, e). try_from-room xs f ∙ ap ok e)
    where
      there : try_from capacity xs ≡ ok b → Fits xs × (holding xs ≡ b)
      there e = elim (dec_le (length xs) capacity) [
        | no over ↦ cc ((refuses xs (inl (omega arith))).1, e)
        | yes fits ↦ elim (dec_le (length xs) u16_max) [
          | no over ↦ cc ((refuses xs (inr (omega arith))).1, e)
          | yes short ↦ ((fits, short), cc (try_from-room xs (fits, short), e))
        ]
      ]
