-- ===== src/Protocol/Lists/Laws.antt =====
-- crates/protocol/src/basic/list.rs: `TpmList<T>` and the laws of the codec traits.
use tpm2_library.Common.{
  ℕ, ◌*◌, ◌^◌, ◌≤◌, ◌<◌, List, [], ◌∷◌, ◌++◌, length, All, ok, ◌≡◌, ap, sym, ◌∙◌, subst, arith,
  length-append,
}
use tpm2_library.Protocol.Codec.{Codec, IsCodec}
use tpm2_library.Protocol.Writer.Append.{Emits, encode_each}
use tpm2_library.Protocol.Integer.{to_be_bytes}
use tpm2_library.Protocol.Integer.Bytes.{length-to_be_bytes}
use tpm2_library.Protocol.Lists.{TpmList, max_size, sum_len, encoded_len, marshal, unmarshal, deref}
use tpm2_library.Protocol.Lists.Refine.{holding, deref-holding}
use tpm2_library.Protocol.Lists.Framing.{
  framed_items, marshal_holding-Emits, unmarshal_holding, unmarshal_holding_sound,
}

scale_mono : (m a b : ℕ) → a ≤ b → m * a ≤ m * b
scale_mono m a b h = grind arith

module _ {A : Type 0} (c : Codec A) (encode : A → List ℕ) (IsWf : A → Type 0)
    (lawful : IsCodec c encode IsWf) (capacity : ℕ) where
  -- A list that the operations can make: it holds some well-formed items within the limits.
  pub record IsWfList (l : TpmList A capacity) : Type 0 where
    pub content : List A
    pub fits : length content ≤ capacity
    pub countable : length content < 2 ^ 32
    pub are_wf : All IsWf content
    pub holds : l ≡ holding capacity content

  -- The encoding that `marshal` writes.
  abbrev pub encode_list : TpmList A capacity → List ℕ
  encode_list l = framed_items encode (deref capacity l)

  content : (l : TpmList A capacity) (w : IsWfList l) → deref capacity l ≡ w.content
  content l w = ap (deref capacity) w.holds ∙ deref-holding capacity w.content w.fits

  encode-content :
      (l : TpmList A capacity) (w : IsWfList l) → encode_list l ≡ framed_items encode w.content
  encode-content l w = ap (framed_items encode) (content l w)

  sum_len-encode :
      (xs : List A)
      → All IsWf xs
      → (sum_len c capacity xs ≡ length (encode_each encode xs))
        × (sum_len c capacity xs ≤ c.max_size * length xs)
  sum_len-encode [] v = omega arith
  sum_len-encode (x ∷ xs) (vx, v) = omega (
    arith,
    sum_len-encode xs v,
    lawful.len_encode x vx,
    lawful.len_bound x vx,
    length-append (encode x) (encode_each encode xs),
  )

  abbrev pub codec : Codec (TpmList A capacity)
  codec = record {
    max_size = max_size c capacity;
    len = encoded_len c capacity;
    marshal = marshal c capacity;
    unmarshal = unmarshal c capacity;
  }

  pub TpmList-IsCodec : IsCodec codec encode_list IsWfList
  unfolding encoded_len
  TpmList-IsCodec = record {
    len_encode = λ l w.
        let same = content l w in
        omega (
          arith,
          ap (sum_len c capacity) same,
          (sum_len-encode w.content w.are_wf).0,
          ap length (encode-content l w),
          length-append (to_be_bytes 4 (length w.content)) (encode_each encode w.content),
          length-to_be_bytes 4 (length w.content),
        );
    len_bound = λ l w. omega (
      arith,
      ap (sum_len c capacity) (content l w),
      (sum_len-encode w.content w.are_wf).1,
      scale_mono c.max_size (length w.content) capacity w.fits,
    );
    emits = λ l w. rw (encode-content l w) (
        subst (λ x. Emits (marshal c capacity x) (framed_items encode w.content)) (sym w.holds)
          (marshal_holding-Emits c encode IsWf lawful capacity w.content w.fits w.countable
            w.are_wf));
    reads = λ l rest w. rw (encode-content l w) (
        unmarshal_holding c encode IsWf lawful capacity w.content rest w.fits w.countable w.are_wf
        ∙ ap (λ x. ok (x, rest)) (sym w.holds));
    sound = λ buf l rest h e.
        let (xs, holds, split, fits, countable, are_wf) =
          unmarshal_holding_sound c encode IsWf lawful capacity buf l rest h e in
        let w : IsWfList l = record {
          content = xs;
          fits = fits;
          countable = countable;
          are_wf = are_wf;
          holds = holds;
        } in
        (w, split ∙ ap (λ t. t ++ rest) (sym (encode-content l w)));
  }
