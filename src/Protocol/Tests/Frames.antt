-- ===== src/Protocol/Tests/Frames.antt =====
-- The theorems on the frames of crates/protocol, applied to a command and a response with one handle
-- and two bytes of parameters.
use tpm2_library.Common.{All}
use tpm2_library.Common.{
  ℕ, ◌+◌, ◌≤◌, List, [], ◌∷◌, ◌++◌, length, true, false, ok, err, ◌≡◌, ◌⊎◌, ◌↔◌, refl, ap, arith,
}
use tpm2_library.Protocol.Error.{TpmError, Slice}
use tpm2_library.Protocol.Writer.{TpmWriter, write_bytes, put, as_bytes}
use tpm2_library.Protocol.Writer.Append.{IsValid, write_bytes-Emits}
use tpm2_library.Protocol.Codec.{Codec}
use tpm2_library.Protocol.Integer.{TpmInt, to_be_bytes}
use tpm2_library.Protocol.Integer.Laws
use tpm2_library.Protocol.Integer.Laws.{TpmInt-IsCodec}
use tpm2_library.Protocol.Tests.{half, half-IsWf, tight, tight-IsValid}
use tpm2_library.Protocol.Constants.Cc
use tpm2_library.Protocol.Constants.Cc.{evict_control}
use tpm2_library.Protocol.Constants.St
use tpm2_library.Protocol.Constants.St.{TpmSt, sessions, no_sessions}
use tpm2_library.Protocol.Rc
use tpm2_library.Protocol.Rc.{TpmRc, fmt0}
use tpm2_library.Protocol.Rc.Base
use tpm2_library.Protocol.Rc.Base.{success, failure}
use tpm2_library.Protocol.Frame.{
  TpmFrame, tpm_marshal_command, tpm_marshal_response, response_tag, is_success, max_sessions,
}
use tpm2_library.Protocol.Frame.Sizes.{IsFrame}
use tpm2_library.Protocol.Frame.Command.{
  command_bytes, tpm_marshal_command-wire, tpm_marshal_command-overflow,
}
use tpm2_library.Protocol.Frame.Checks.{tpm_marshal_command-checks}
use tpm2_library.Protocol.Integer.Bytes.{IsByte}
use tpm2_library.Protocol.Frame.{tpm_header_size}
use tpm2_library.Protocol.Integer.{from_be_bytes, from_digits}
use tpm2_library.Protocol.Frame.Stream.{marshaled-split_frame}
use tpm2_library.Protocol.Frame.Envelope.{split_frame, frame_prefix_size, read_u32, size_offset}
use tpm2_library.Protocol.Frame.Envelope.Prefix.{split_frame_sound}
use tpm2_library.Protocol.Frame.Auths.{validate_auth_commands}
use tpm2_library.Protocol.Frame.Auths.Grammar.{IsAuthArea, validate_auth_commands_iff}
use tpm2_library.Protocol.Frame.Response.{response_bytes, tpm_marshal_response-wire}
use tpm2_library.Protocol.Frame.Answer.{Answered, Refused, tpm_marshal_response-checks}
use tpm2_library.Protocol.Frame.Failure.{tpm_marshal_response-failure}

abbrev codec : Codec (TpmInt 2)
codec = Laws.codec 2

abbrev encode : TpmInt 2 → List ℕ
encode i = i.bytes

abbrev handle_bytes : List ℕ
handle_bytes = 0x81 ∷ 0 ∷ 0 ∷ 1 ∷ []

abbrev parameter_bytes : List ℕ
parameter_bytes = 7 ∷ 9 ∷ []

abbrev evict : TpmFrame
evict = record {
  cc = evict_control;
  handles = 1;
  len = 6;
  marshal_handles = write_bytes handle_bytes;
  marshal_parameters = write_bytes parameter_bytes;
}

evict-IsFrame : IsFrame evict handle_bytes parameter_bytes
evict-IsFrame = record {
  handles_emit = write_bytes-Emits handle_bytes;
  parameters_emit = write_bytes-Emits parameter_bytes;
  handle_count = refl;
  total = refl;
}

-- One authorization; the codec of the test is that of a 16-bit integer.
abbrev auths : List (TpmInt 2)
auths = half ∷ []

abbrev zeros : List ℕ
zeros = 0 ∷ 0 ∷ 0 ∷ 0 ∷ 0 ∷ 0 ∷ 0 ∷ 0 ∷ 0 ∷ 0 ∷ 0 ∷ 0 ∷ []

abbrev fresh : TpmWriter
fresh = record { buffer = zeros ++ (zeros ++ zeros); cursor = 0 }

fresh-IsValid : IsValid fresh
fresh-IsValid = record { within = omega arith; addressable = omega arith }

abbrev evict_wire : List ℕ
evict_wire =
    command_bytes encode (St.discriminant (response_tag auths)) (Cc.discriminant evict_control)
      auths handle_bytes parameter_bytes

tpm_marshal_command-wire_example :
    (tpm_marshal_command codec evict (response_tag auths) auths fresh
      ≡ (ok tt, put evict_wire fresh))
    × (length evict_wire ≡ 22)
    × (as_bytes (put evict_wire fresh) ≡ as_bytes fresh ++ evict_wire)
tpm_marshal_command-wire_example =
    tpm_marshal_command-wire codec encode Laws.IsWf (TpmInt-IsCodec 2) evict handle_bytes
      parameter_bytes auths evict-IsFrame (half-IsWf, tt) (omega arith) (omega arith) fresh
      fresh-IsValid (omega arith)

tpm_marshal_command-overflow_example :
    (e : TpmError) × (part : List ℕ) × (tpm_marshal_command codec evict
        (response_tag auths)
        auths
        tight
      ≡ (err e, put part tight))
    × (2 + length part ≤ 3)
tpm_marshal_command-overflow_example =
    tpm_marshal_command-overflow codec encode Laws.IsWf (TpmInt-IsCodec 2) evict handle_bytes
      parameter_bytes auths evict-IsFrame (half-IsWf, tt) (omega arith) (omega arith) tight
      tight-IsValid (omega arith)

evict_succeeds : (tpm_marshal_command codec evict (response_tag auths) auths fresh).0 ≡ ok tt
evict_succeeds =
    ap (λ r. r.0)
      (tpm_marshal_command-wire codec encode Laws.IsWf (TpmInt-IsCodec 2) evict handle_bytes
        parameter_bytes auths evict-IsFrame (half-IsWf, tt) (omega arith) (omega arith) fresh
        fresh-IsValid (omega arith)).0

tpm_marshal_command-checks_example :
    (response_tag auths ≡ response_tag auths)
    × (length auths ≤ max_sessions)
    × (0 + 22 ≤ length fresh.buffer)
    × (tpm_marshal_command codec evict (response_tag auths) auths fresh
        ≡ (ok tt, put evict_wire fresh))
tpm_marshal_command-checks_example =
    tpm_marshal_command-checks codec encode Laws.IsWf (TpmInt-IsCodec 2) evict handle_bytes
      parameter_bytes auths evict-IsFrame (half-IsWf, tt) (omega arith) (response_tag auths) fresh
      fresh-IsValid evict_succeeds

success-is_success : is_success (fmt0 success) ≡ true
unfolding Base.discriminant
success-is_success = refl

failure-is_success : is_success (fmt0 failure) ≡ false
unfolding Base.discriminant
failure-is_success = refl

abbrev evicted_wire : List ℕ
evicted_wire =
    response_bytes encode (St.discriminant (response_tag auths)) (Rc.value (fmt0 success)) auths
      handle_bytes parameter_bytes

tpm_marshal_response-wire_example :
    (tpm_marshal_response codec evict (fmt0 success) auths fresh ≡ (ok tt, put evicted_wire fresh))
    × (length evicted_wire ≡ 22)
    × (as_bytes (put evicted_wire fresh) ≡ as_bytes fresh ++ evicted_wire)
tpm_marshal_response-wire_example =
    tpm_marshal_response-wire codec encode Laws.IsWf (TpmInt-IsCodec 2) evict handle_bytes
      parameter_bytes (fmt0 success) auths evict-IsFrame (half-IsWf, tt) (omega arith) (omega arith)
      success-is_success fresh fresh-IsValid (omega arith)

evicted_succeeds : (tpm_marshal_response codec evict (fmt0 success) auths fresh).0 ≡ ok tt
evicted_succeeds =
    ap (λ r. r.0)
      (tpm_marshal_response-wire codec encode Laws.IsWf (TpmInt-IsCodec 2) evict handle_bytes
        parameter_bytes (fmt0 success) auths evict-IsFrame (half-IsWf, tt) (omega arith)
        (omega arith) success-is_success fresh fresh-IsValid (omega arith)).0

tpm_marshal_response-checks_example :
    (length auths ≤ max_sessions)
    × (Answered codec encode Laws.IsWf
          (TpmInt-IsCodec 2)
          evict
          handle_bytes
          parameter_bytes
          evict-IsFrame
          (fmt0 success)
          auths
          fresh
        ⊎ Refused codec encode Laws.IsWf
            (TpmInt-IsCodec 2)
            evict
            handle_bytes
            parameter_bytes
            evict-IsFrame
            (fmt0 success)
            auths
            fresh)
tpm_marshal_response-checks_example =
    tpm_marshal_response-checks codec encode Laws.IsWf (TpmInt-IsCodec 2) evict handle_bytes
      parameter_bytes evict-IsFrame (fmt0 success) auths fresh (half-IsWf, tt) (omega arith)
      fresh-IsValid evicted_succeeds

tpm_marshal_response-failure_example : tpm_marshal_response codec evict (fmt0 failure) [] fresh ≡ (
  ok tt,
  put
      (to_be_bytes 2 (St.discriminant no_sessions)
        ++ (to_be_bytes 4 10 ++ to_be_bytes 4 (Rc.value (fmt0 failure))))
      fresh,
)
tpm_marshal_response-failure_example =
    tpm_marshal_response-failure codec evict (fmt0 failure) fresh failure-is_success fresh-IsValid
      (omega arith)

-- An authorization area with one authorization: an empty nonce and an HMAC of one byte.
abbrev area : Slice
area = record { start = 14; bytes = 0x40 ∷ 0 ∷ 0 ∷ 9 ∷ 0 ∷ 0 ∷ 1 ∷ 0 ∷ 1 ∷ 5 ∷ [] }

area-IsByte : All IsByte area.bytes
area-IsByte = (
  omega arith,
  (
    omega arith,
    (
      omega arith,
      (
        omega arith,
        (
          omega arith,
          (omega arith, (omega arith, (omega arith, (omega arith, (omega arith, tt))))),
        ),
      ),
    ),
  ),
)

validate_auth_commands_iff_example :
    (validate_auth_commands zeros area ≡ ok tt) ↔ IsAuthArea max_sessions area.bytes
validate_auth_commands_iff_example = validate_auth_commands_iff zeros area area-IsByte

marshaled-split_frame_example :
    (split_frame (evict_wire ++ zeros) ≡ ok (evict_wire, zeros))
    × (split_frame (
          response_bytes encode
            (St.discriminant (response_tag auths))
            (Cc.discriminant evict_control)
            auths
            handle_bytes
            parameter_bytes
          ++ zeros)
        ≡ ok (
          response_bytes encode
              (St.discriminant (response_tag auths))
              (Cc.discriminant evict_control)
              auths
              handle_bytes
              parameter_bytes,
          zeros,
        ))
marshaled-split_frame_example =
    marshaled-split_frame encode (St.discriminant (response_tag auths))
      (Cc.discriminant evict_control) auths handle_bytes parameter_bytes zeros (omega arith)
      (omega arith)

-- A header with nothing behind it, and the first byte of the next frame.
abbrev bare : List ℕ
bare = 0x80 ∷ 1 ∷ 0 ∷ 0 ∷ 0 ∷ 10 ∷ 0 ∷ 0 ∷ 1 ∷ 1 ∷ []

abbrev bare_and_more : List ℕ
bare_and_more = 0x80 ∷ 1 ∷ 0 ∷ 0 ∷ 0 ∷ 10 ∷ 0 ∷ 0 ∷ 1 ∷ 1 ∷ 0x80 ∷ []

split_bare : split_frame bare_and_more ≡ ok (bare, 0x80 ∷ [])
unfolding split_frame frame_prefix_size read_u32 from_be_bytes from_digits
split_bare = refl

split_frame_sound_example :
    (bare_and_more ≡ bare ++ (0x80 ∷ []))
    × (tpm_header_size ≤ length bare)
    × (read_u32 bare_and_more size_offset ≡ length bare)
split_frame_sound_example = split_frame_sound bare_and_more bare (0x80 ∷ []) split_bare
