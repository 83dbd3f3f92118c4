-- ===== src/Protocol/Lists/Framing.antt =====
-- The bytes that the owned list writes and reads: a 32-bit count, then the items' encodings.
use tpm2_library.Common.{
  ℕ, zero, suc, ◌+◌, ◌^◌, ◌≤◌, ◌<◌, List, [], ◌∷◌, ◌++◌, length, All, ok, ◌≡◌, refl, ap, sym, ◌∙◌,
  subst, arith, All-suffix, >>=-ok, ◌>>=◌, ok-pair, append_assoc, append-nil, length-append, lt→ltb,
  le→ltb, ltb, reject_if,
}
use mathlib.Core.Path.{ap₂}
use native.Mathlib.Decide.{dec_lt}
use tpm2_library.Protocol.Error.{too_many_items}
use tpm2_library.Protocol.Codec.{Codec, IsCodec}
use tpm2_library.Protocol.Writer.{◌>>◌, marshal_each}
use tpm2_library.Protocol.Writer.Append.{Emits, >>-Emits, encode_each, marshal_each-Emits}
use tpm2_library.Protocol.Integer
use tpm2_library.Protocol.Integer.{to_be_bytes}
use tpm2_library.Protocol.Integer.Bytes.{IsByte}
use tpm2_library.Protocol.Integer.Laws.{
  marshal_new-Emits, unmarshal-to_be_bytes, unmarshal_sound, value-new,
}
use tpm2_library.Protocol.Lists.{TpmList, marshal, marshal_count, unmarshal, read_items, new}
use tpm2_library.Protocol.Lists.Refine.{
  holding, new-holding, deref-holding, try_push-room, try_push-full,
}

module _ {A : Type 0} (encode : A → List ℕ) where
  -- The wire form of the items `xs`.
  abbrev pub framed_items : List A → List ℕ
  framed_items xs = to_be_bytes 4 (length xs) ++ encode_each encode xs

module _ {A : Type 0} (c : Codec A) (encode : A → List ℕ) (IsWf : A → Type 0)
    (lawful : IsCodec c encode IsWf) (capacity : ℕ) where
  read_items-encode :
      (xs ys : List A) (rest : List ℕ)
      → length xs + length ys ≤ capacity
      → All IsWf ys
      → read_items c capacity (length ys) (holding capacity xs) (encode_each encode ys ++ rest)
        ≡ ok (holding capacity (xs ++ ys), rest)
  unfolding read_items
  read_items-encode xs [] rest h v = rw append-nil
  read_items-encode xs (y ∷ ys) rest h (vy, v) =
      let pushed = try_push-room capacity xs y (omega arith) in
      let front : length (xs ++ (y ∷ [])) + length ys ≤ capacity =
        omega (arith, length-append xs (y ∷ [])) in
      rw (append_assoc (encode y) (encode_each encode ys) rest) (
        rw (lawful.reads y (encode_each encode ys ++ rest) vy) (
          rw pushed (
            read_items-encode (xs ++ (y ∷ [])) ys rest front v
            ∙ ap (λ zs. ok (holding capacity zs, rest)) (append_assoc xs (y ∷ []) ys))))

  -- What the loop has read: the items, one encoding behind the other.
  record Read (n : ℕ) (xs : List A) (buf : List ℕ) (l : TpmList A capacity) (rest : List ℕ)
      : Type 0 where
    new_items : List A
    read_count : length new_items ≡ n
    room : length xs + length new_items ≤ capacity
    are_wf : All IsWf new_items
    holds : holding capacity (xs ++ new_items) ≡ l
    split : buf ≡ encode_each encode new_items ++ rest

  Read-cons :
      (n : ℕ) (xs : List A) (buf : List ℕ) (l : TpmList A capacity) (rest : List ℕ) (y : A)
      (tail : List ℕ)
      → IsWf y
      → buf ≡ encode y ++ tail
      → Read n (xs ++ (y ∷ [])) tail l rest
      → Read (suc n) xs buf l rest
  Read-cons n xs buf l rest y tail y_wf y_split r = record {
    new_items = y ∷ r.new_items;
    read_count = ap suc r.read_count;
    room = omega (arith, r.room, length-append xs (y ∷ []));
    are_wf = (y_wf, r.are_wf);
    holds = ap (holding capacity) (sym (append_assoc xs (y ∷ []) r.new_items)) ∙ r.holds;
    split =
        y_split
        ∙ ap (λ t. encode y ++ t) r.split
        ∙ sym (append_assoc (encode y) (encode_each encode r.new_items) rest);
  }

  read_items_sound :
      (n : ℕ) (xs : List A) (buf : List ℕ) (l : TpmList A capacity) (rest : List ℕ)
      → All IsByte buf
      → length xs ≤ capacity
      → read_items c capacity n (holding capacity xs) buf ≡ ok (l, rest)
      → Read n xs buf l rest
  unfolding read_items
  read_items_sound zero xs buf l rest h k e = record {
    new_items = [];
    read_count = refl;
    room = omega arith;
    are_wf = tt;
    holds = ap (holding capacity) (append-nil xs) ∙ (ok-pair e).0;
    split = (ok-pair e).1;
  }
  read_items_sound (suc n) xs buf l rest h k e =
      let (read, item_ok, e') = >>=-ok (c.unmarshal buf) _ e in
      let (y_wf, y_split) = lawful.sound buf read.0 read.1 h item_ok in
      elim (dec_lt (length xs) capacity) [
        | yes room ↦
            let h' = All-suffix IsByte (encode read.0) read.1 (subst (All IsByte) y_split h) in
            let r =
              read_items_sound n (xs ++ (read.0 ∷ [])) read.1 l rest h'
                (omega (arith, length-append xs (read.0 ∷ [])))
                (rw (try_push-room capacity xs read.0 room) at e') in
            Read-cons n xs buf l rest read.0 read.1 y_wf y_split r
        | no full ↦ cc (e', try_push-full capacity xs read.0 (omega arith))
      ]

  pub marshal_holding-Emits :
      (xs : List A)
      → length xs ≤ capacity
      → length xs < 2 ^ 32
      → All IsWf xs
      → Emits (marshal c capacity (holding capacity xs)) (framed_items encode xs)
  unfolding marshal marshal_count Integer.try_from
  marshal_holding-Emits xs h k v = rw (lt→ltb (length xs) (2 ^ 32) k) (
      subst
        (λ ys.
          Emits (Integer.marshal 4 (Integer.new 4 (length xs)) >> marshal_each c.marshal ys)
            (framed_items encode xs))
        (sym (deref-holding capacity xs h))
        (>>-Emits _ _ _ _ (marshal_new-Emits 4 (length xs))
          (marshal_each-Emits c.marshal encode IsWf lawful.emits xs v)))

  pub unmarshal_holding :
      (xs : List A) (rest : List ℕ)
      → length xs ≤ capacity
      → length xs < 2 ^ 32
      → All IsWf xs
      → unmarshal c capacity (framed_items encode xs ++ rest) ≡ ok (holding capacity xs, rest)
  unfolding unmarshal
  unmarshal_holding xs rest h k v =
      rw (append_assoc (to_be_bytes 4 (length xs)) (encode_each encode xs) rest) (
        rw (unmarshal-to_be_bytes 4 (length xs) (encode_each encode xs ++ rest)) (
          rw (value-new 4 (length xs) (omega arith)) (
            rw (le→ltb capacity (length xs) h, new-holding {A = A} capacity)
              (read_items-encode [] xs rest (omega arith) v))))

  unmarshal_accepts :
      (count : ℕ) (cursor : List ℕ) (l : TpmList A capacity) (rest : List ℕ)
      → All IsByte cursor
      → (reject_if (ltb capacity count) (too_many_items 0 capacity count) >>= λ done.
          read_items c capacity count (new capacity) cursor)
        ≡ ok (l, rest)
      → Read count [] cursor l rest
  unmarshal_accepts count cursor l rest h e = elim (dec_lt capacity count) [
    | yes over ↦ cc (rw (lt→ltb capacity count over) at e)
    | no fits ↦
        read_items_sound count [] cursor l rest h (omega arith)
          (rw (le→ltb capacity count (omega arith), new-holding {A = A} capacity) at e)
  ]

  pub unmarshal_holding_sound :
      (buf : List ℕ) (l : TpmList A capacity) (rest : List ℕ)
      → All IsByte buf
      → unmarshal c capacity buf ≡ ok (l, rest)
      → (xs : List A) × (l ≡ holding capacity xs)
        × (buf ≡ framed_items encode xs ++ rest)
        × (length xs ≤ capacity)
        × (length xs < 2 ^ 32)
        × All IsWf xs
  unfolding unmarshal
  unmarshal_holding_sound buf l rest h e =
      let (raw, int_ok, e') = >>=-ok (Integer.unmarshal 4 buf) _ e in
      let (split, small) = unmarshal_sound 4 buf raw.0 raw.1 h int_ok in
      let h' =
        All-suffix IsByte (to_be_bytes 4 (Integer.value 4 raw.0)) raw.1
          (subst (All IsByte) split h) in
      let r = unmarshal_accepts (Integer.value 4 raw.0) raw.1 l rest h' e' in
      (
        r.new_items,
        sym r.holds,
        split
            ∙ ap₂ (λ n t. to_be_bytes 4 n ++ t) (sym r.read_count) r.split
            ∙ sym (
                append_assoc (to_be_bytes 4 (length r.new_items)) (encode_each encode r.new_items)
                  rest),
        omega (arith, r.room),
        omega (arith, r.read_count, small),
        r.are_wf,
      )
