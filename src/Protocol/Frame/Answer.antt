-- ===== src/Protocol/Frame/Answer.antt =====
-- What success of `tpm_marshal_response` of crates/protocol/src/frame/marshal.rs means.
use tpm2_library.Common.{
  ℕ, ◌+◌, ◌^◌, ◌≤◌, ◌<◌, List, [], ◌∷◌, length, All, true, false, ltb, ltb→le, ltb→lt, ok, ◌≡◌, ◌⊎◌,
  refl, ap, Bool-cases, inl, inr,
}
use tpm2_library.Protocol.Codec.{Codec, IsCodec}
use tpm2_library.Protocol.Writer.{TpmWriter, put}
use tpm2_library.Protocol.Writer.Append.{IsValid}
use tpm2_library.Protocol.Constants.St
use tpm2_library.Protocol.Rc
use tpm2_library.Protocol.Rc.{TpmRc}
use tpm2_library.Protocol.Frame.{
  TpmFrame, max_sessions, response_tag, is_success, tpm_marshal_response,
}
use tpm2_library.Protocol.Frame.Sizes.{IsFrame}
use tpm2_library.Protocol.Frame.Response.{
  response_size, response_bytes, tpm_marshal_response-wire, tpm_marshal_response-overflow,
}
use tpm2_library.Protocol.Frame.Failure.{
  bare_header, tpm_marshal_response-failure, tpm_marshal_response-short,
  tpm_marshal_response-refused, tpm_marshal_response-crowded,
}

module _ {S : Type 0} (c : Codec S) (encode : S → List ℕ) (IsWf : S → Type 0)
    (lawful : IsCodec c encode IsWf) (f : TpmFrame) (hs ps : List ℕ)
    (is_frame : IsFrame f hs ps) where
  -- The whole response stands behind what the writer had.
  abbrev pub Answered : TpmRc → List S → TpmWriter → Type 0
  Answered rc ss w =
      (is_success rc ≡ true)
      × (w.cursor + response_size encode ss hs ps ≤ length w.buffer)
      × (tpm_marshal_response c f rc ss w ≡ (
        ok tt,
        put (response_bytes encode (St.discriminant (response_tag ss)) (Rc.value rc) ss hs ps) w,
      ))

  -- The bare header stands behind what the writer had, and there are no authorizations.
  abbrev pub Refused : TpmRc → List S → TpmWriter → Type 0
  Refused rc ss w =
      (is_success rc ≡ false)
      × (ss ≡ [])
      × (w.cursor + 10 ≤ length w.buffer)
      × (tpm_marshal_response c f rc ss w ≡ (ok tt, put (bare_header rc) w))

  answered :
      (rc : TpmRc) (ss : List S) (w : TpmWriter)
      → All IsWf ss
      → response_size encode ss hs ps < 2 ^ 32
      → length ss ≤ max_sessions
      → is_success rc ≡ true
      → IsValid w
      → (tpm_marshal_response c f rc ss w).0 ≡ ok tt
      → Answered rc ss w
  answered rc ss w v small few good valid e =
      elim (Bool-cases (ltb (length w.buffer) (w.cursor + response_size encode ss hs ps))) [
        | inr enough ↦
            let room = ltb→le (length w.buffer) (w.cursor + response_size encode ss hs ps) enough in
            (
              good,
              room,
              (tpm_marshal_response-wire c encode IsWf lawful f hs ps rc ss is_frame v few small
                  good w valid room).0,
            )
        | inl short ↦
            let full = ltb→lt (length w.buffer) (w.cursor + response_size encode ss hs ps) short in
            let (reason, part, broken, inside) =
              tpm_marshal_response-overflow c encode IsWf lawful f hs ps rc ss is_frame v few small
                good w valid full in
            absurd (cc (ap (λ r. r.0) broken, e))
      ]

  refused :
      (rc : TpmRc) (ss : List S) (w : TpmWriter)
      → length ss ≤ max_sessions
      → is_success rc ≡ false
      → IsValid w
      → (tpm_marshal_response c f rc ss w).0 ≡ ok tt
      → Refused rc ss w
  refused rc (s ∷ ss) w few bad valid e =
      absurd (cc (ap (λ r. r.0) (tpm_marshal_response-refused c f rc s ss w bad few), e))
  refused rc [] w few bad valid e = elim (Bool-cases (ltb (length w.buffer) (w.cursor + 10))) [
    | inr enough ↦
        let room = ltb→le (length w.buffer) (w.cursor + 10) enough in
        (bad, refl, room, tpm_marshal_response-failure c f rc w bad valid room)
    | inl short ↦
        let (reason, broken) =
          tpm_marshal_response-short c f rc w bad valid
            (ltb→lt (length w.buffer) (w.cursor + 10) short) in
        absurd (cc (broken, e))
  ]

  -- When a response whose size fits 32 bits is marshaled with any response code and any
  -- authorizations, success means that there are at most eight of them and one of two things: the
  -- code is Success and the writer has gained exactly the response, its authorizations included; or
  -- it is another code, there are no authorizations at all, and the writer has gained exactly the
  -- bare header. The writer had room for it.
  pub tpm_marshal_response-checks :
      (rc : TpmRc) (ss : List S) (w : TpmWriter)
      → All IsWf ss
      → response_size encode ss hs ps < 2 ^ 32
      → IsValid w
      → (tpm_marshal_response c f rc ss w).0 ≡ ok tt
      → (length ss ≤ max_sessions) × (Answered rc ss w ⊎ Refused rc ss w)
  tpm_marshal_response-checks rc ss w v small valid e =
      elim (Bool-cases (ltb max_sessions (length ss))) [
        | inl many ↦ absurd (
            cc (
              ap (λ r. r.0)
                  (tpm_marshal_response-crowded c f rc ss w (ltb→lt max_sessions (length ss) many)),
              e,
            ))
        | inr counted ↦
            let few = ltb→le max_sessions (length ss) counted in
            elim (Bool-cases (is_success rc)) [
              | inl good ↦ (few, inl (answered rc ss w v small few good valid e))
              | inr bad ↦ (few, inr (refused rc ss w few bad valid e))
            ]
      ]
