-- ===== src/Protocol/Frame/Auths/Grammar.antt =====
-- The authorization areas that the walk of crates/protocol/src/frame/wire.rs accepts.
use tpm2_library.Common.{
  ℕ, zero, suc, ◌+◌, ◌≤◌, List, [], ◌∷◌, ◌++◌, length, take, drop, All, true, false, ltb, ◌==◌, ok,
  >>=-ok, reject_if, ◌≡◌, ◌↔◌, refl, sym, ap, ◌∙◌, subst, arith, All-suffix, All-drop,
  length-append, length-take, take-append-drop, drop-append_eq, append_assoc, length-zero,
  Bool-cases, reject_if-ok, ltb→le, le→ltb, ==_iff, inl, inr,
}
use tpm2_library.Protocol.Error.{Slice, tpm_offset, unexpected_end}
use tpm2_library.Protocol.Integer.Bytes.{IsByte}
use tpm2_library.Protocol.Integer.{to_be_bytes}
use tpm2_library.Protocol.Buffer.Tpm2b
use tpm2_library.Protocol.Buffer.Tpm2b.{read_size}
use tpm2_library.Protocol.Buffer.Tpm2b.Framing.{
  framed, length-framed, cast_prefix_sound, read_size-to_be_bytes, to_be_bytes-read_size,
}
use tpm2_library.Protocol.Frame.{max_sessions}
use tpm2_library.Protocol.Frame.Auths.{
  advance, skip_tpm2b, skip_auth_command, auth_commands, validate_auth_commands,
}

-- One authorization of a command: session handle, nonce, attributes and HMAC.
abbrev pub auth_bytes : List ℕ → List ℕ → ℕ → List ℕ → List ℕ
auth_bytes handle nonce attributes hmac = handle ++ (framed nonce ++ (attributes ∷ framed hmac))

-- At most `n` authorizations, one behind the other.
pub data IsAuthArea : ℕ → List ℕ → Type 0 where
  done : {n : ℕ} → IsAuthArea n []
  auth :
      {n : ℕ} {rest : List ℕ} (handle nonce : List ℕ) (attributes : ℕ) (hmac : List ℕ)
      → length handle ≡ 4
      → length nonce ≤ 0xffff
      → length hmac ≤ 0xffff
      → IsAuthArea n rest
      → IsAuthArea (suc n) (auth_bytes handle nonce attributes hmac ++ rest)

module _ (base : List ℕ) where
  skip_cast :
      (s s' : Slice)
      → read_size s.bytes ≤ 0xffff
      → skip_tpm2b base s ≡ ok s'
      → Tpm2b.cast_prefix 0xffff s.bytes ≡ ok (take (2 + read_size s.bytes) s.bytes, s'.bytes)
  unfolding skip_tpm2b Tpm2b.cast_prefix Tpm2b.validate_prefix
  skip_cast s s' h e = ground arith

  skip_two : (s s' : Slice) → skip_tpm2b base s ≡ ok s' → 2 ≤ length s.bytes
  unfolding skip_tpm2b
  skip_two s s' e = ground arith

  skip_sound :
      (s s' : Slice)
      → All IsByte s.bytes
      → skip_tpm2b base s ≡ ok s'
      → (xs : List ℕ) × (s.bytes ≡ framed xs ++ s'.bytes) × (length xs ≤ 0xffff)
  skip_sound s s' h e =
      let (same, short) = to_be_bytes-read_size s.bytes h (skip_two s s' e) in
      let (xs, view, split, small, _) =
        cast_prefix_sound 0xffff s.bytes (take (2 + read_size s.bytes) s.bytes) s'.bytes h
          (skip_cast s s' short e) in
      (xs, split ∙ ap (λ v. v ++ s'.bytes) view, small)

  skip-framed :
      (s : Slice) (xs rest : List ℕ)
      → s.bytes ≡ framed xs ++ rest
      → length xs ≤ 0xffff
      → skip_tpm2b base s ≡ ok (record { start = s.start + (2 + length xs); bytes = rest })
  unfolding skip_tpm2b
  skip-framed s xs rest e h =
      let size : read_size s.bytes ≡ length xs =
        ap read_size (e ∙ append_assoc (to_be_bytes 2 (length xs)) xs rest)
        ∙ read_size-to_be_bytes (length xs) (xs ++ rest) h in
      ground (
        arith,
        size,
        ap length e,
        length-append (framed xs) rest,
        length-framed xs,
        ap (drop (2 + length xs)) e,
        drop-append_eq (2 + length xs) (framed xs) rest (length-framed xs),
      )

  uncons : (bs : List ℕ) → (length bs == 0) ≡ false → (b : ℕ) × (bs ≡ b ∷ drop 1 bs)
  uncons [] h = cc
  uncons (b ∷ bs) h = (b, refl)

  join_auth :
      (handle nonce : List ℕ) (attributes : ℕ) (hmac rest : List ℕ)
      → handle ++ (framed nonce ++ (attributes ∷ (framed hmac ++ rest)))
        ≡ auth_bytes handle nonce attributes hmac ++ rest
  join_auth handle nonce attributes hmac rest =
      ap (λ t. handle ++ t) (sym (append_assoc (framed nonce) (attributes ∷ framed hmac) rest))
      ∙ sym (append_assoc handle (framed nonce ++ (attributes ∷ framed hmac)) rest)

  skip_auth_sound :
      (s s' : Slice)
      → All IsByte s.bytes
      → skip_auth_command base s ≡ ok s'
      → (handle nonce : List ℕ) × (attributes : ℕ) × (hmac : List ℕ) × (length handle ≡ 4)
        × (length nonce ≤ 0xffff)
        × (length hmac ≤ 0xffff)
        × (s.bytes ≡ auth_bytes handle nonce attributes hmac ++ s'.bytes)
  unfolding skip_auth_command
  skip_auth_sound s s' h e =
      let (_, room, e1) =
        >>=-ok
          (reject_if (ltb (length s.bytes) 4)
            (unexpected_end (tpm_offset base s) 4 (length s.bytes)))
          _ e in
      let (s1, first, e2) = >>=-ok (skip_tpm2b base (advance 4 s)) _ e1 in
      let (_, filled, second) =
        >>=-ok (reject_if (length s1.bytes == 0) (unexpected_end (tpm_offset base s1) 1 0)) _ e2 in
      let h4 = All-drop IsByte 4 s.bytes h in
      let (nonce, nonce_split, nonce_short) = skip_sound (advance 4 s) s1 h4 first in
      let h1 = All-suffix IsByte (framed nonce) s1.bytes (subst (All IsByte) nonce_split h4) in
      let (attributes, one) =
        uncons s1.bytes (reject_if-ok _ (unexpected_end (tpm_offset base s1) 1 0) filled) in
      let (hmac, hmac_split, hmac_short) =
        skip_sound (advance 1 s1) s' (All-drop IsByte 1 s1.bytes h1) second in
      let enough : ltb (length s.bytes) 4 ≡ false =
        reject_if-ok _ (unexpected_end (tpm_offset base s) 4 (length s.bytes)) room in
      (
        take 4 s.bytes,
        nonce,
        attributes,
        hmac,
        omega (arith, length-take 4 s.bytes, ltb→le (length s.bytes) 4 enough),
        nonce_short,
        hmac_short,
        sym (take-append-drop 4 s.bytes)
            ∙ ap (λ t. take 4 s.bytes ++ t)
                (nonce_split
                  ∙ ap (λ t. framed nonce ++ t) (one ∙ ap (λ t. attributes ∷ t) hmac_split))
            ∙ join_auth (take 4 s.bytes) nonce attributes hmac s'.bytes,
      )

  skip_auth-bytes :
      (s : Slice) (handle nonce : List ℕ) (attributes : ℕ) (hmac rest : List ℕ)
      → length handle ≡ 4
      → length nonce ≤ 0xffff
      → length hmac ≤ 0xffff
      → s.bytes ≡ auth_bytes handle nonce attributes hmac ++ rest
      → (s' : Slice) × (skip_auth_command base s ≡ ok s') × (s'.bytes ≡ rest)
  unfolding skip_auth_command
  skip_auth-bytes s handle nonce attributes hmac rest four nonce_short hmac_short e =
      let e' = e ∙ sym (join_auth handle nonce attributes hmac rest) in
      let tail = framed nonce ++ (attributes ∷ (framed hmac ++ rest)) in
      let s1 : Slice = record {
        start = s.start + 4 + (2 + length nonce);
        bytes = attributes ∷ (framed hmac ++ rest);
      } in
      let s2 : Slice = record { start = s1.start + 1 + (2 + length hmac); bytes = rest } in
      let first =
        skip-framed (advance 4 s) nonce (attributes ∷ (framed hmac ++ rest))
          (ap (drop 4) e' ∙ drop-append_eq 4 handle tail four) nonce_short in
      let second = skip-framed (advance 1 s1) hmac rest refl hmac_short in
      let room : ltb (length s.bytes) 4 ≡ false =
        le→ltb (length s.bytes) 4 (omega (arith, ap length e', length-append handle tail)) in
      let filled : (length (attributes ∷ (framed hmac ++ rest)) == 0) ≡ false = ground arith in
      (s2, rw room (rw first (rw filled second)), refl)

  is_done : (n : ℕ) (s : Slice) → (length s.bytes == 0) ≡ true → IsAuthArea n s.bytes
  is_done n s empty = subst (IsAuthArea n) (sym (length-zero s.bytes ((==_iff _ 0).0 empty))) done

  auth_commands_sound :
      (n : ℕ) (s : Slice)
      → All IsByte s.bytes
      → auth_commands base n s ≡ ok tt
      → IsAuthArea n s.bytes
  unfolding auth_commands
  auth_commands_sound zero s h e = elim (Bool-cases (length s.bytes == 0)) [
    | inl empty ↦ is_done zero s empty
    | inr filled ↦ cc (rw filled at e)
  ]
  auth_commands_sound (suc n) s h e = elim (Bool-cases (length s.bytes == 0)) [
    | inl empty ↦ is_done (suc n) s empty
    | inr filled ↦
        let (s', skipped, e') = >>=-ok (skip_auth_command base s) _ (rw filled at e) in
        let (handle, nonce, attributes, hmac, four, nonce_short, hmac_short, split) =
          skip_auth_sound s s' h skipped in
        let h' =
          All-suffix IsByte (auth_bytes handle nonce attributes hmac) s'.bytes
            (subst (All IsByte) split h) in
        subst (IsAuthArea (suc n)) (sym split) (
          auth handle nonce attributes hmac four nonce_short hmac_short
            (auth_commands_sound n s' h' e'))
  ]

  auth_commands-area :
      (n : ℕ) (bytes : List ℕ) (s : Slice)
      → IsAuthArea n bytes
      → s.bytes ≡ bytes
      → auth_commands base n s ≡ ok tt
  unfolding auth_commands
  auth_commands-area zero [] s done e = rw (ap length e)
  auth_commands-area (suc n) [] s done e = rw (ap length e)
  auth_commands-area zero (b ∷ bytes) s area e = elim area [ ]
  auth_commands-area (suc n) bytes s
        (auth {rest = rest} handle nonce attributes hmac four short short' area) e =
      let (s', skipped, left) =
        skip_auth-bytes s handle nonce attributes hmac rest four short short' e in
      let filled : (length s.bytes == 0) ≡ false = ground (
        arith,
        ap length e,
        length-append (auth_bytes handle nonce attributes hmac) rest,
        length-append handle (framed nonce ++ (attributes ∷ framed hmac)),
      ) in
      rw filled (rw skipped (auth_commands-area n rest s' area left))

  -- The walk over the authorization area of a command accepts exactly at most eight
  -- authorizations one behind the other, each a session handle of four bytes, a nonce behind its
  -- 16-bit length, a byte of attributes and an HMAC behind its 16-bit length, and nothing else.
  pub validate_auth_commands_iff :
      (s : Slice)
      → All IsByte s.bytes
      → (validate_auth_commands base s ≡ ok tt) ↔ IsAuthArea max_sessions s.bytes
  unfolding validate_auth_commands
  validate_auth_commands_iff s h = (
    auth_commands_sound max_sessions s h,
    λ area. auth_commands-area max_sessions s.bytes s area refl,
  )
