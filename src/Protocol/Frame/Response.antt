-- ===== src/Protocol/Frame/Response.antt =====
-- What `tpm_marshal_response` of crates/protocol/src/frame/marshal.rs writes.
use tpm2_library.Common.{
  ℕ, ◌+◌, ◌^◌, ◌≤◌, ◌<◌, List, [], ◌∷◌, ◌++◌, length, All, true, ok, err, ◌≡◌, refl, ◌∙◌, arith,
  length-append, le→ltb, if◌then◌else◌,
}
use tpm2_library.Protocol.Error.{TpmError}
use tpm2_library.Protocol.Codec.{Codec, IsCodec}
use tpm2_library.Protocol.Writer.{TpmWriter, Marshal, ◌>>◌, put, marshal_each, as_bytes, pure}
use tpm2_library.Protocol.Writer.Append.{
  Emits, IsValid, encode_each, >>-Emits, marshal_each-Emits, pure-Emits, as_bytes-put,
}
use tpm2_library.Protocol.Integer
use tpm2_library.Protocol.Integer.{TpmInt, to_be_bytes}
use tpm2_library.Protocol.Integer.Bytes.{length-to_be_bytes}
use tpm2_library.Protocol.Integer.Laws.{marshal_new-Emits}
use tpm2_library.Protocol.Constants.St
use tpm2_library.Protocol.Constants.St.{TpmSt, no_sessions, sessions}
use tpm2_library.Protocol.Rc
use tpm2_library.Protocol.Rc.{TpmRc}
use tpm2_library.Protocol.Frame.{
  TpmFrame, max_sessions, marshal_tag, response_tag, no_items, is_success, response_sizes,
  check_session_count, marshal_success, size_field, with_ok, tpm_marshal_response,
}
use tpm2_library.Protocol.Frame.Sizes.{
  IsFrame, checked_add-fits, size_field-fits, body_areas-sizes, sessions_len-total,
}
use tpm2_library.Protocol.Frame.Command.{enum-Emits}

pub rc-Emits : (rc : TpmRc) → Emits (Rc.marshal rc) (to_be_bytes 4 (Rc.value rc))
unfolding Rc.marshal
rc-Emits rc = marshal_new-Emits 4 (Rc.value rc)

module _ {S : Type 0} (encode : S → List ℕ) where
  -- The size of the parameters, which stands only before authorizations.
  abbrev pub parameter_size_field : List S → List ℕ → List ℕ
  parameter_size_field [] ps = []
  parameter_size_field (s ∷ ss) ps = to_be_bytes 4 (length ps)

  abbrev pub field_len : List S → ℕ
  field_len [] = 0
  field_len (s ∷ ss) = 4

  length-parameter_size_field :
      (ss : List S) (ps : List ℕ) → length (parameter_size_field ss ps) ≡ field_len ss
  length-parameter_size_field [] ps = refl
  length-parameter_size_field (s ∷ ss) ps = length-to_be_bytes 4 (length ps)

  abbrev pub response_size : List S → List ℕ → List ℕ → ℕ
  response_size ss hs ps =
      10 + (length hs + field_len ss + length ps + length (encode_each encode ss))

  -- The response on the wire.
  abbrev pub response_bytes : ℕ → ℕ → List S → List ℕ → List ℕ → List ℕ
  response_bytes tag rc ss hs ps =
      to_be_bytes 2 tag
      ++ (to_be_bytes 4 (response_size ss hs ps)
          ++ (to_be_bytes 4 rc
              ++ (hs ++ (parameter_size_field ss ps ++ (ps ++ encode_each encode ss)))))

  pub length-response_bytes :
      (tag rc : ℕ) (ss : List S) (hs ps : List ℕ)
      → length (response_bytes tag rc ss hs ps) ≡ response_size ss hs ps
  length-response_bytes tag rc ss hs ps =
      let size = to_be_bytes 4 (response_size ss hs ps) in
      let field = parameter_size_field ss ps in
      let auths = encode_each encode ss in
      omega (
        arith,
        length-append (to_be_bytes 2 tag)
            (size ++ (to_be_bytes 4 rc ++ (hs ++ (field ++ (ps ++ auths))))),
        length-append size (to_be_bytes 4 rc ++ (hs ++ (field ++ (ps ++ auths)))),
        length-append (to_be_bytes 4 rc) (hs ++ (field ++ (ps ++ auths))),
        length-append hs (field ++ (ps ++ auths)),
        length-append field (ps ++ auths),
        length-append ps auths,
        length-parameter_size_field ss ps,
        length-to_be_bytes 2 tag,
        length-to_be_bytes 4 (response_size ss hs ps),
        length-to_be_bytes 4 rc,
      )

module _ {S : Type 0} (c : Codec S) (encode : S → List ℕ) (IsWf : S → Type 0)
    (lawful : IsCodec c encode IsWf) where
  response_sizes-fit :
      (f : TpmFrame) (hs ps : List ℕ) (ss : List S) (offset : ℕ)
      → IsFrame f hs ps
      → All IsWf ss
      → response_size encode ss hs ps < 2 ^ 32
      → response_sizes c f ss offset ≡ ok (length ps, Integer.new 4 (response_size encode ss hs ps))
  unfolding response_sizes
  response_sizes-fit f hs ps ss offset is_frame v small =
      let n = length (encode_each encode ss) in
      let k = field_len encode ss in
      rw (body_areas-sizes f hs ps offset is_frame (omega arith)) (
        rw (sessions_len-total c encode IsWf lawful ss offset v (omega arith)) (
          rw (field_is ss) (
            rw (checked_add-fits (length hs) k offset (omega arith)) (
              rw (checked_add-fits (length hs + k) (length ps) offset (omega arith)) (
                rw (checked_add-fits (length hs + k + length ps) n offset (omega arith)) (
                  rw (checked_add-fits 10 (length hs + k + length ps + n) offset (omega arith)) (
                    rw (
                      size_field-fits (10 + (length hs + k + length ps + n)) offset
                        (10 + (length hs + k + length ps + n)) small))))))))
    where
      field_is : (ss : List S) → (if no_items ss then 0 else 4) ≡ field_len encode ss
      field_is [] = refl
      field_is (s ∷ ss) = refl

  success_writes : TpmFrame → TpmRc → List S → ℕ → ℕ → ℕ → Marshal
  success_writes f rc ss area size offset =
      marshal_tag (response_tag ss)
      >> Integer.marshal 4 (Integer.new 4 size)
      >> Rc.marshal rc
      >> f.marshal_handles
      >> (if no_items ss then pure else with_ok (size_field area offset area) (Integer.marshal 4))
      >> f.marshal_parameters
      >> (if no_items ss then pure else marshal_each c.marshal ss)

  field-Emits :
      (ss : List S) (ps : List ℕ) (offset : ℕ)
      → length ps < 2 ^ 32
      → Emits
          (if no_items ss
            then pure
            else with_ok (size_field (length ps) offset (length ps)) (Integer.marshal 4))
          (parameter_size_field encode ss ps)
  field-Emits [] ps offset h = pure-Emits
  field-Emits (s ∷ ss) ps offset h =
      rw (size_field-fits (length ps) offset (length ps) h) (marshal_new-Emits 4 (length ps))

  auths-Emits :
      (ss : List S)
      → All IsWf ss
      → Emits (if no_items ss then pure else marshal_each c.marshal ss) (encode_each encode ss)
  auths-Emits [] v = pure-Emits
  auths-Emits (s ∷ ss) v = marshal_each-Emits c.marshal encode IsWf lawful.emits (s ∷ ss) v

  module _ (f : TpmFrame) (hs ps : List ℕ) (rc : TpmRc) (ss : List S) (is_frame : IsFrame f hs ps)
      (v : All IsWf ss) (few : length ss ≤ max_sessions)
      (small : response_size encode ss hs ps < 2 ^ 32) (succeeded : is_success rc ≡ true) where
    abbrev pub response_wire : List ℕ
    response_wire = response_bytes encode (St.discriminant (response_tag ss)) (Rc.value rc) ss hs ps

    success_writes-Emits :
        (offset : ℕ)
        → Emits
            (success_writes f rc ss (length ps) (response_size encode ss hs ps) offset)
            response_wire
    unfolding success_writes
    success_writes-Emits offset =
        >>-Emits _ _ _ _ (enum-Emits 2 St.discriminant (response_tag ss)) (
          >>-Emits _ _ _ _ (marshal_new-Emits 4 (response_size encode ss hs ps)) (
            >>-Emits _ _ _ _ (rc-Emits rc) (
              >>-Emits _ _ _ _ is_frame.handles_emit (
                >>-Emits _ _ _ _ (field-Emits ss ps offset (omega arith))
                  (>>-Emits _ _ _ _ is_frame.parameters_emit (auths-Emits ss v))))))

    response_writes :
        (w : TpmWriter)
        → tpm_marshal_response c f rc ss w
          ≡ success_writes f rc ss (length ps) (response_size encode ss hs ps) w.cursor w
    unfolding tpm_marshal_response marshal_success check_session_count success_writes
    response_writes w =
        rw (le→ltb max_sessions (length ss) few)
          (rw succeeded (rw (response_sizes-fit f hs ps ss w.cursor is_frame v small)))

    -- A response to a command that succeeded, with at most eight authorizations and a size that fits
    -- 32 bits, is written whole where the writer has room for it: tag, size, response code, handles,
    -- the size of the parameters if there are authorizations, parameters and authorizations. The
    -- size field is the number of bytes written.
    pub tpm_marshal_response-wire :
        (w : TpmWriter)
        → IsValid w
        → w.cursor + response_size encode ss hs ps ≤ length w.buffer
        → (tpm_marshal_response c f rc ss w ≡ (ok tt, put response_wire w))
          × (length response_wire ≡ response_size encode ss hs ps)
          × (as_bytes (put response_wire w) ≡ as_bytes w ++ response_wire)
    tpm_marshal_response-wire w valid room =
        let size =
          length-response_bytes encode (St.discriminant (response_tag ss)) (Rc.value rc) ss hs ps in
        let room' : w.cursor + length response_wire ≤ length w.buffer = omega (arith, size) in
        (
          response_writes w ∙ (success_writes-Emits w.cursor).fits w valid room',
          size,
          as_bytes-put response_wire w valid room',
        )

    -- Where the writer has too little room for it, marshaling fails.
    pub tpm_marshal_response-overflow :
        (w : TpmWriter)
        → IsValid w
        → length w.buffer < w.cursor + response_size encode ss hs ps
        → (e : TpmError) × (part : List ℕ) × (tpm_marshal_response c f rc ss w
            ≡ (err e, put part w))
          × (w.cursor + length part ≤ length w.buffer)
    tpm_marshal_response-overflow w valid full =
        let size =
          length-response_bytes encode (St.discriminant (response_tag ss)) (Rc.value rc) ss hs ps in
        let o = (success_writes-Emits w.cursor).overflows w valid (omega (arith, size)) in
        (o.error, o.written, response_writes w ∙ o.result, o.room)
