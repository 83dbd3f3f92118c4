-- ===== src/Protocol/Frame/Command.antt =====
-- What `tpm_marshal_command` of crates/protocol/src/frame/marshal.rs writes.
use tpm2_library.Common.{
  ℕ, ◌+◌, ◌-◌, ◌^◌, ◌≤◌, ◌<◌, List, [], ◌∷◌, ◌++◌, length, All, ok, err, ◌≡◌, refl, ◌∙◌, arith,
  length-append, le→ltb,
}
use tpm2_library.Protocol.Error.{TpmError}
use tpm2_library.Protocol.Codec.{Codec, IsCodec}
use tpm2_library.Protocol.Writer.{TpmWriter, Marshal, ◌>>◌, put, as_bytes}
use tpm2_library.Protocol.Writer.Append.{
  Emits, IsValid, encode_each, >>-Emits, marshal_each-Emits, pure-Emits, as_bytes-put,
}
use tpm2_library.Protocol.Integer
use tpm2_library.Protocol.Integer.{TpmInt, to_be_bytes}
use tpm2_library.Protocol.Integer.Bytes.{length-to_be_bytes}
use tpm2_library.Protocol.Integer.Laws.{marshal_new-Emits}
use tpm2_library.Protocol.Enum
use tpm2_library.Protocol.Constants.Cc
use tpm2_library.Protocol.Constants.St
use tpm2_library.Protocol.Constants.St.{TpmSt, no_sessions, sessions}
use tpm2_library.Protocol.Frame.{
  TpmFrame, max_sessions, marshal_tag, response_tag, command_sizes, check_session_count,
  marshal_auths, tpm_marshal_command,
}
use tpm2_library.Protocol.Frame.Sizes.{
  IsFrame, checked_add-fits, size_field-fits, body_areas-sizes, sessions_len-total,
}

pub enum-Emits :
    {V : Type 0} (n : ℕ) (discriminant : V → ℕ) (v : V)
    → Emits (Enum.marshal n discriminant v) (to_be_bytes n (discriminant v))
unfolding Enum.marshal
enum-Emits n discriminant v = marshal_new-Emits n (discriminant v)

module _ {S : Type 0} (encode : S → List ℕ) where
  -- The authorization area: its size, then the authorizations; nothing without authorizations.
  abbrev pub auth_area : List S → List ℕ
  auth_area [] = []
  auth_area (s ∷ ss) =
      to_be_bytes 4 (length (encode_each encode (s ∷ ss))) ++ encode_each encode (s ∷ ss)

  abbrev pub auth_size : List S → ℕ
  auth_size [] = 0
  auth_size (s ∷ ss) = 4 + length (encode_each encode (s ∷ ss))

  pub length-auth_area : (ss : List S) → length (auth_area ss) ≡ auth_size ss
  length-auth_area [] = refl
  length-auth_area (s ∷ ss) =
      let n = length (encode_each encode (s ∷ ss)) in
      omega (
        arith,
        length-append (to_be_bytes 4 n) (encode_each encode (s ∷ ss)),
        length-to_be_bytes 4 n,
      )

  abbrev pub command_size : List S → List ℕ → List ℕ → ℕ
  command_size ss hs ps = 10 + (length hs + auth_size ss + length ps)

  -- The command on the wire.
  abbrev pub command_bytes : ℕ → ℕ → List S → List ℕ → List ℕ → List ℕ
  command_bytes tag cc ss hs ps =
      to_be_bytes 2 tag
      ++ (to_be_bytes 4 (command_size ss hs ps)
          ++ (to_be_bytes 4 cc ++ (hs ++ (auth_area ss ++ ps))))

  pub length-command_bytes :
      (tag cc : ℕ) (ss : List S) (hs ps : List ℕ)
      → length (command_bytes tag cc ss hs ps) ≡ command_size ss hs ps
  length-command_bytes tag cc ss hs ps =
      let size = to_be_bytes 4 (command_size ss hs ps) in
      omega (
        arith,
        length-append (to_be_bytes 2 tag)
            (size ++ (to_be_bytes 4 cc ++ (hs ++ (auth_area ss ++ ps)))),
        length-append size (to_be_bytes 4 cc ++ (hs ++ (auth_area ss ++ ps))),
        length-append (to_be_bytes 4 cc) (hs ++ (auth_area ss ++ ps)),
        length-append hs (auth_area ss ++ ps),
        length-append (auth_area ss) ps,
        length-auth_area ss,
        length-to_be_bytes 2 tag,
        length-to_be_bytes 4 (command_size ss hs ps),
        length-to_be_bytes 4 cc,
      )

module _ {S : Type 0} (c : Codec S) (encode : S → List ℕ) (IsWf : S → Type 0)
    (lawful : IsCodec c encode IsWf) where
  command_sizes-fit :
      (f : TpmFrame) (hs ps : List ℕ) (ss : List S) (offset : ℕ)
      → IsFrame f hs ps
      → All IsWf ss
      → length ss ≤ max_sessions
      → command_size encode ss hs ps < 2 ^ 32
      → command_sizes c f (response_tag ss) ss offset
        ≡ ok (auth_size encode ss, Integer.new 4 (command_size encode ss hs ps))
  unfolding command_sizes check_session_count St.discriminant
  command_sizes-fit f hs ps [] offset is_frame v few small =
      rw (body_areas-sizes f hs ps offset is_frame (omega arith)) (
        rw (checked_add-fits (length hs) 0 offset (omega arith)) (
          rw (checked_add-fits (length hs + 0) (length ps) offset (omega arith)) (
            rw (checked_add-fits 10 (length hs + 0 + length ps) offset (omega arith)) (
              rw (
                size_field-fits (10 + (length hs + 0 + length ps)) offset
                  (10 + (length hs + 0 + length ps)) small)))))
  command_sizes-fit f hs ps (s ∷ ss) offset is_frame v few small =
      let n = length (encode_each encode (s ∷ ss)) in
      rw (le→ltb max_sessions (length (s ∷ ss)) few) (
        rw (body_areas-sizes f hs ps offset is_frame (omega arith)) (
          rw (sessions_len-total c encode IsWf lawful (s ∷ ss) offset v (omega arith)) (
            rw (checked_add-fits 4 n offset (omega arith)) (
              rw (checked_add-fits (length hs) (4 + n) offset (omega arith)) (
                rw (checked_add-fits (length hs + (4 + n)) (length ps) offset (omega arith)) (
                  rw (checked_add-fits 10 (length hs + (4 + n) + length ps) offset (omega arith)) (
                    rw (
                      size_field-fits (10 + (length hs + (4 + n) + length ps)) offset
                        (10 + (length hs + (4 + n) + length ps)) small))))))))

  marshal_auths-Emits :
      (ss : List S) (offset : ℕ)
      → All IsWf ss
      → auth_size encode ss < 2 ^ 32
      → Emits
          (marshal_auths c (response_tag ss) ss (auth_size encode ss) offset)
          (auth_area encode ss)
  unfolding marshal_auths St.discriminant
  marshal_auths-Emits [] offset v small = pure-Emits
  marshal_auths-Emits (s ∷ ss) offset v small =
      let n = length (encode_each encode (s ∷ ss)) in
      let size : 4 + n - 4 ≡ n = omega arith in
      rw size (
        rw (size_field-fits n offset (4 + n) (omega arith)) (
          >>-Emits _ _ _ _ (marshal_new-Emits 4 n)
            (marshal_each-Emits c.marshal encode IsWf lawful.emits (s ∷ ss) v)))

  writes : TpmFrame → List S → ℕ → ℕ → Marshal
  writes f ss size offset =
      marshal_tag (response_tag ss)
      >> Integer.marshal 4 (Integer.new 4 size)
      >> Enum.marshal 4 Cc.discriminant f.cc
      >> f.marshal_handles
      >> marshal_auths c (response_tag ss) ss (auth_size encode ss) offset
      >> f.marshal_parameters

  module _ (f : TpmFrame) (hs ps : List ℕ) (ss : List S) (is_frame : IsFrame f hs ps)
      (v : All IsWf ss) (few : length ss ≤ max_sessions)
      (small : command_size encode ss hs ps < 2 ^ 32) where
    abbrev pub wire : List ℕ
    wire = command_bytes encode (St.discriminant (response_tag ss)) (Cc.discriminant f.cc) ss hs ps

    writes-Emits : (offset : ℕ) → Emits (writes f ss (command_size encode ss hs ps) offset) wire
    unfolding writes
    writes-Emits offset = >>-Emits _ _ _ _ (enum-Emits 2 St.discriminant (response_tag ss)) (
        >>-Emits _ _ _ _ (marshal_new-Emits 4 (command_size encode ss hs ps)) (
          >>-Emits _ _ _ _ (enum-Emits 4 Cc.discriminant f.cc) (
            >>-Emits _ _ _ _ is_frame.handles_emit (
              >>-Emits _ _ _ _ (marshal_auths-Emits ss offset v (omega arith))
                is_frame.parameters_emit))))

    command_writes :
        (w : TpmWriter)
        → tpm_marshal_command c f (response_tag ss) ss w
          ≡ writes f ss (command_size encode ss hs ps) w.cursor w
    unfolding tpm_marshal_command writes
    command_writes w = rw (command_sizes-fit f hs ps ss w.cursor is_frame v few small)

    length-wire : length wire ≡ command_size encode ss hs ps
    length-wire =
        length-command_bytes encode (St.discriminant (response_tag ss)) (Cc.discriminant f.cc) ss hs
          ps

    -- A command whose tag says whether it has authorizations, at most eight of them, and whose size
    -- fits 32 bits, is written whole where the writer has room for it: tag, size, command code,
    -- handles, authorization area and parameters in this order. The size field is the number of
    -- bytes written.
    pub tpm_marshal_command-wire :
        (w : TpmWriter)
        → IsValid w
        → w.cursor + command_size encode ss hs ps ≤ length w.buffer
        → (tpm_marshal_command c f (response_tag ss) ss w ≡ (ok tt, put wire w))
          × (length wire ≡ command_size encode ss hs ps)
          × (as_bytes (put wire w) ≡ as_bytes w ++ wire)
    tpm_marshal_command-wire w valid room =
        let room' : w.cursor + length wire ≤ length w.buffer = omega (arith, length-wire) in
        (
          command_writes w ∙ (writes-Emits w.cursor).fits w valid room',
          length-wire,
          as_bytes-put wire w valid room',
        )

    -- Where the writer has too little room for the command, marshaling fails, and what it has
    -- written by then stays inside the writer's buffer.
    pub tpm_marshal_command-overflow :
        (w : TpmWriter)
        → IsValid w
        → length w.buffer < w.cursor + command_size encode ss hs ps
        → (e : TpmError) × (part : List ℕ) × (tpm_marshal_command c f (response_tag ss) ss w
            ≡ (err e, put part w))
          × (w.cursor + length part ≤ length w.buffer)
    tpm_marshal_command-overflow w valid full =
        let o = (writes-Emits w.cursor).overflows w valid (omega (arith, length-wire)) in
        (o.error, o.written, command_writes w ∙ o.result, o.room)
