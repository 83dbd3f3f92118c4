-- ===== src/Protocol/Frame/Checks.antt =====
-- What success of `tpm_marshal_command` of crates/protocol/src/frame/marshal.rs means.
use tpm2_library.Common.{
  ℕ, ◌+◌, ◌^◌, ◌≤◌, ◌<◌, List, [], ◌∷◌, length, All, true, false, not, ◌&&◌, ltb, ltb→le, ok, ◌≡◌,
  refl, sym, ap, ◌∙◌, arith, reject_if, reject_if-ok, >>=-ok, Result-cases, Bool-cases, inl, inr,
}
use tpm2_library.Protocol.Error.{invalid_tag, too_many_items}
use tpm2_library.Protocol.Codec.{Codec, IsCodec}
use tpm2_library.Protocol.Writer.{TpmWriter, put}
use tpm2_library.Protocol.Writer.Append.{IsValid}
use tpm2_library.Protocol.Integer.{TpmInt}
use tpm2_library.Protocol.Constants.Cc
use tpm2_library.Protocol.Constants.St
use tpm2_library.Protocol.Constants.St.{TpmSt, no_sessions, sessions, TpmSt-try_from_iff}
use tpm2_library.Protocol.Frame.Sizes.{IsFrame}
use tpm2_library.Protocol.Frame.Command.{
  command_size, command_bytes, tpm_marshal_command-wire, tpm_marshal_command-overflow,
}
use tpm2_library.Protocol.Frame.{
  TpmFrame, max_sessions, same_tag, agree, no_items, response_tag, command_sizes,
  check_session_count, tpm_marshal_command,
}

module _ {S : Type 0} (c : Codec S) where
  tags_agree :
      (tag : TpmSt) (ss : List S)
      → not (same_tag tag no_sessions) && not (same_tag tag sessions) ≡ false
      → agree (same_tag tag sessions) (no_items ss) ≡ false
      → same_tag tag (response_tag ss) ≡ true
  tags_agree tag [] h k = ground (arith, h, k)
  tags_agree tag (s ∷ ss) h k = ground (arith, h, k)

  sizes-checked :
      (f : TpmFrame) (tag : TpmSt) (ss : List S) (offset : ℕ) (r : ℕ × TpmInt 4)
      → command_sizes c f tag ss offset ≡ ok r
      → (same_tag tag (response_tag ss) ≡ true) × (length ss ≤ max_sessions)
  unfolding command_sizes check_session_count
  sizes-checked f tag ss offset r e =
      let (_, known, e1) =
        >>=-ok
          (reject_if (not (same_tag tag no_sessions) && not (same_tag tag sessions))
            (invalid_tag offset (St.discriminant tag)))
          _ e in
      let (_, matched, e2) =
        >>=-ok
          (reject_if (agree (same_tag tag sessions) (no_items ss))
            (invalid_tag offset (St.discriminant tag)))
          _ e1 in
      let (_, counted, e3) =
        >>=-ok
          (reject_if (ltb max_sessions (length ss))
            (too_many_items offset max_sessions (length ss)))
          _ e2 in
      (
        tags_agree tag ss (reject_if-ok _ (invalid_tag offset (St.discriminant tag)) known)
            (reject_if-ok _ (invalid_tag offset (St.discriminant tag)) matched),
        ltb→le max_sessions (length ss)
            (reject_if-ok _ (too_many_items offset max_sessions (length ss)) counted),
      )

  command_sizes-checked :
      (f : TpmFrame) (tag : TpmSt) (ss : List S) (w : TpmWriter)
      → (tpm_marshal_command c f tag ss w).0 ≡ ok tt
      → (same_tag tag (response_tag ss) ≡ true) × (length ss ≤ max_sessions)
  unfolding tpm_marshal_command
  command_sizes-checked f tag ss w e = elim (Result-cases (command_sizes c f tag ss w.cursor)) [
    | inl (r, computed) ↦ sizes-checked f tag ss w.cursor r computed
    | inr (reason, failed) ↦ cc (rw failed at e)
  ]

same_tag_eq : (a b : TpmSt) → same_tag a b ≡ true → a ≡ b
same_tag_eq a b e =
    let eq : St.discriminant a ≡ St.discriminant b = ground (arith, e) in
    cc (
      (TpmSt-try_from_iff (St.discriminant b) a).1 eq,
      (TpmSt-try_from_iff (St.discriminant b) b).1 refl,
    )

module _ {S : Type 0} (c : Codec S) (encode : S → List ℕ) (IsWf : S → Type 0)
    (lawful : IsCodec c encode IsWf) (f : TpmFrame) (hs ps : List ℕ) (ss : List S)
    (is_frame : IsFrame f hs ps) (v : All IsWf ss)
    (small : command_size encode ss hs ps < 2 ^ 32) where
  -- When a command whose size fits 32 bits is marshaled with any tag and any authorizations, success
  -- means that the tag is the one that says whether it has authorizations, that there are at most
  -- eight of them, that the writer had room for the whole command, and that the writer has gained
  -- exactly the command: its header, handles, authorization area and parameters.
  pub tpm_marshal_command-checks :
      (tag : TpmSt) (w : TpmWriter)
      → IsValid w
      → (tpm_marshal_command c f tag ss w).0 ≡ ok tt
      → (tag ≡ response_tag ss)
        × (length ss ≤ max_sessions)
        × (w.cursor + command_size encode ss hs ps ≤ length w.buffer)
        × (tpm_marshal_command c f tag ss w ≡ (
          ok tt,
          put (command_bytes encode (St.discriminant tag) (Cc.discriminant f.cc) ss hs ps) w,
        ))
  tpm_marshal_command-checks tag w valid e =
      let (agrees, few) = command_sizes-checked c f tag ss w e in
      let eq : tag ≡ response_tag ss = same_tag_eq tag (response_tag ss) agrees in
      let e' : (tpm_marshal_command c f (response_tag ss) ss w).0 ≡ ok tt =
        ap (λ t. (tpm_marshal_command c f t ss w).0) (sym eq) ∙ e in
      elim (Bool-cases (ltb (length w.buffer) (w.cursor + command_size encode ss hs ps))) [
        | inr enough ↦
            let room = ltb→le (length w.buffer) (w.cursor + command_size encode ss hs ps) enough in
            (
              eq,
              few,
              room,
              rw eq (
                  (tpm_marshal_command-wire c encode IsWf lawful f hs ps ss is_frame v few small w
                    valid room).0),
            )
        | inl short ↦
            let full : length w.buffer < w.cursor + command_size encode ss hs ps =
              ground (arith, short) in
            let (reason, part, failed, inside) =
              tpm_marshal_command-overflow c encode IsWf lawful f hs ps ss is_frame v few small w
                valid full in
            cc (ap (λ r. r.0) failed, e')
      ]
