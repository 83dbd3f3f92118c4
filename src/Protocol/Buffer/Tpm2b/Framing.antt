-- ===== src/Protocol/Buffer/Tpm2b/Framing.antt =====
-- crates/protocol/src/basic/buffer.rs: the wire form of a TPM2B and the view `Tpm2b`.
use tpm2_library.Common.{
  ℕ, ◌+◌, ◌≤◌, ◌^◌, take-add, List, ◌++◌, length, take, drop, ok, ◌≡◌, ap, sym, ◌∙◌, arith, All,
  length-append, length-take, length-drop, take-append-drop, take-append_eq, drop-append_eq,
  append_assoc, All-take,
}
use mathlib.Core.Path.{ap₂}
use tpm2_library.Protocol.Integer.{from_be_bytes, to_be_bytes}
use tpm2_library.Protocol.Integer.Bytes.{
  IsByte, length-to_be_bytes, from_be_bytes-to_be_bytes, to_be_bytes-from_be_bytes,
  from_be_bytes-lt,
}
use tpm2_library.Protocol.Buffer.Tpm2b.{read_size, payload, validate_prefix, cast_prefix}

-- The wire form of the byte string `xs`.
abbrev pub framed : List ℕ → List ℕ
framed xs = to_be_bytes 2 (length xs) ++ xs

pub length-framed : (xs : List ℕ) → length (framed xs) ≡ 2 + length xs
length-framed xs =
    omega (arith, length-append (to_be_bytes 2 (length xs)) xs, length-to_be_bytes 2 (length xs))

pub read_size-to_be_bytes :
    (v : ℕ) (rest : List ℕ) → v ≤ 0xffff → read_size (to_be_bytes 2 v ++ rest) ≡ v
unfolding read_size
read_size-to_be_bytes v rest h =
    ap from_be_bytes (take-append_eq 2 (to_be_bytes 2 v) rest (length-to_be_bytes 2 v))
    ∙ from_be_bytes-to_be_bytes 2 v (omega arith)

pub to_be_bytes-read_size :
    (buf : List ℕ)
    → All IsByte buf
    → 2 ≤ length buf
    → (to_be_bytes 2 (read_size buf) ≡ take 2 buf) × (read_size buf ≤ 0xffff)
unfolding read_size
to_be_bytes-read_size buf h two = (
  ap (λ n. to_be_bytes n (from_be_bytes (take 2 buf))) (sym width)
      ∙ to_be_bytes-from_be_bytes (take 2 buf) (All-take IsByte 2 buf h),
  omega (
    arith,
    from_be_bytes-lt (take 2 buf) (All-take IsByte 2 buf h),
    ap (λ (n : ℕ). 256 ^ n) width,
  ),
)
  where
    width : length (take 2 buf) ≡ 2
    width = omega (arith, length-take 2 buf)

pub payload-framed : (xs : List ℕ) → payload (framed xs) ≡ xs
unfolding payload
payload-framed xs =
    drop-append_eq 2 (to_be_bytes 2 (length xs)) xs (length-to_be_bytes 2 (length xs))

module _ (capacity : ℕ) where
  -- A wire form within the limits is accepted, whatever follows it.
  pub cast_prefix-framed :
      (xs rest : List ℕ)
      → length xs ≤ capacity
      → length xs ≤ 0xffff
      → cast_prefix capacity (framed xs ++ rest) ≡ ok (framed xs, rest)
  unfolding cast_prefix validate_prefix
  cast_prefix-framed xs rest h k =
      let total = length-append (framed xs) rest in
      let size : read_size (framed xs ++ rest) ≡ length xs =
        ap read_size (append_assoc (to_be_bytes 2 (length xs)) xs rest)
        ∙ read_size-to_be_bytes (length xs) (xs ++ rest) k in
      ground (
        arith,
        size,
        total,
        length-framed xs,
        take-append_eq (2 + length xs) (framed xs) rest (length-framed xs),
        drop-append_eq (2 + length xs) (framed xs) rest (length-framed xs),
      )

  cast_prefix_facts :
      (buf view rest : List ℕ)
      → cast_prefix capacity buf ≡ ok (view, rest)
      → (2 ≤ length buf)
        × (2 + read_size buf ≤ length buf)
        × (read_size buf ≤ capacity)
        × (view ≡ take (2 + read_size buf) buf)
        × (rest ≡ drop (2 + read_size buf) buf)
  unfolding cast_prefix validate_prefix
  cast_prefix_facts buf view rest e = ground arith

  -- Whatever is accepted is a wire form within the limits, at the front of the input.
  pub cast_prefix_sound :
      (buf view rest : List ℕ)
      → All IsByte buf
      → cast_prefix capacity buf ≡ ok (view, rest)
      → (xs : List ℕ) × (view ≡ framed xs)
        × (buf ≡ view ++ rest)
        × (length xs ≤ capacity)
        × (length xs ≤ 0xffff)
  cast_prefix_sound buf view rest h e =
      let (two, enough, small, front, back) = cast_prefix_facts buf view rest e in
      let (size, short) = to_be_bytes-read_size buf h two in
      let xs = take (read_size buf) (drop 2 buf) in
      let width : length xs ≡ read_size buf =
        omega (arith, length-take (read_size buf) (drop 2 buf), length-drop 2 buf) in
      (
        xs,
        front
            ∙ take-add 2 (read_size buf) buf
            ∙ ap (λ bs. bs ++ xs) (sym size ∙ ap (to_be_bytes 2) (sym width)),
        sym (take-append-drop (2 + read_size buf) buf) ∙ ap₂ (λ a b. a ++ b) (sym front) (sym back),
        omega arith,
        omega arith,
      )
