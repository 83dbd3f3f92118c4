-- ===== src/Protocol/Frame/Failure.antt =====
-- What `tpm_marshal_response` of crates/protocol/src/frame/marshal.rs does for a command that failed.
use tpm2_library.Common.{
  ℕ, ◌+◌, ◌≤◌, ◌<◌, le→ltb, lt→ltb, ap, List, [], ◌∷◌, ◌++◌, length, false, ok, err, ◌≡◌, arith,
  length-append,
}
use tpm2_library.Protocol.Error.{TpmError, invalid_tag, too_many_items}
use tpm2_library.Protocol.Codec.{Codec}
use tpm2_library.Protocol.Writer.{TpmWriter, ◌>>◌, put}
use tpm2_library.Protocol.Writer.Append.{Emits, IsValid, >>-Emits}
use tpm2_library.Protocol.Integer
use tpm2_library.Protocol.Integer.{TpmInt, to_be_bytes}
use tpm2_library.Protocol.Integer.Bytes.{length-to_be_bytes}
use tpm2_library.Protocol.Integer.Laws.{marshal_new-Emits}
use tpm2_library.Protocol.Constants.St
use tpm2_library.Protocol.Constants.St.{TpmSt, no_sessions, sessions}
use tpm2_library.Protocol.Rc
use tpm2_library.Protocol.Rc.{TpmRc}
use tpm2_library.Protocol.Frame.{
  TpmFrame, tpm_header_size, max_sessions, marshal_tag, is_success, check_session_count,
  marshal_failure, tpm_marshal_response,
}
use tpm2_library.Protocol.Frame.Command.{enum-Emits}
use tpm2_library.Protocol.Frame.Response.{rc-Emits}

-- The bare header.
abbrev pub bare_header : TpmRc → List ℕ
bare_header rc =
    to_be_bytes 2 (St.discriminant no_sessions) ++ (to_be_bytes 4 10 ++ to_be_bytes 4 (Rc.value rc))

length-bare_header : (rc : TpmRc) → length (bare_header rc) ≡ 10
length-bare_header rc =
    let tag = to_be_bytes 2 (St.discriminant no_sessions) in
    omega (
      arith,
      length-append tag (to_be_bytes 4 10 ++ to_be_bytes 4 (Rc.value rc)),
      length-append (to_be_bytes 4 10) (to_be_bytes 4 (Rc.value rc)),
      length-to_be_bytes 2 (St.discriminant no_sessions),
      length-to_be_bytes 4 10,
      length-to_be_bytes 4 (Rc.value rc),
    )

module _ {S : Type 0} (c : Codec S) where
  failure-Emits :
      (rc : TpmRc)
      → Emits
          (marshal_tag no_sessions
            >> Integer.marshal 4 (Integer.new 4 tpm_header_size)
            >> Rc.marshal rc)
          (to_be_bytes 2 (St.discriminant no_sessions)
            ++ (to_be_bytes 4 10 ++ to_be_bytes 4 (Rc.value rc)))
  failure-Emits rc =
      >>-Emits _ _ _ _ (enum-Emits 2 St.discriminant no_sessions)
        (>>-Emits _ _ _ _ (marshal_new-Emits 4 10) (rc-Emits rc))

  -- A response to a command that failed is the bare header of ten bytes with the response code,
  -- whatever the response's body is.
  pub tpm_marshal_response-failure :
      (f : TpmFrame) (rc : TpmRc) (w : TpmWriter)
      → is_success rc ≡ false
      → IsValid w
      → w.cursor + 10 ≤ length w.buffer
      → tpm_marshal_response c f rc [] w ≡ (
        ok tt,
        put
            (to_be_bytes 2 (St.discriminant no_sessions)
              ++ (to_be_bytes 4 10 ++ to_be_bytes 4 (Rc.value rc)))
            w,
      )
  unfolding tpm_marshal_response marshal_failure check_session_count
  tpm_marshal_response-failure f rc w failed valid room =
      rw failed ((failure-Emits rc).fits w valid (omega (arith, length-bare_header rc)))

  -- Where the writer has too little room for the bare header, marshaling fails.
  pub tpm_marshal_response-short :
      (f : TpmFrame) (rc : TpmRc) (w : TpmWriter)
      → is_success rc ≡ false
      → IsValid w
      → length w.buffer < w.cursor + 10
      → (e : TpmError) × ((tpm_marshal_response c f rc [] w).0 ≡ err e)
  unfolding tpm_marshal_response marshal_failure check_session_count
  tpm_marshal_response-short f rc w failed valid full =
      let o = (failure-Emits rc).overflows w valid (omega (arith, length-bare_header rc)) in
      (o.error, rw failed (ap (λ r. r.0) o.result))

  -- The bare header has no place for authorizations: at most eight of them are an invalid tag.
  pub tpm_marshal_response-refused :
      (f : TpmFrame) (rc : TpmRc) (s : S) (ss : List S) (w : TpmWriter)
      → is_success rc ≡ false
      → length (s ∷ ss) ≤ max_sessions
      → tpm_marshal_response c f rc (s ∷ ss) w
        ≡ (err (invalid_tag w.cursor (St.discriminant sessions)), w)
  unfolding tpm_marshal_response marshal_failure check_session_count
  tpm_marshal_response-refused f rc s ss w failed few =
      rw (le→ltb max_sessions (length (s ∷ ss)) few, failed)

  -- More than eight authorizations are too many, whatever the response code is.
  pub tpm_marshal_response-crowded :
      (f : TpmFrame) (rc : TpmRc) (ss : List S) (w : TpmWriter)
      → max_sessions < length ss
      → tpm_marshal_response c f rc ss w
        ≡ (err (too_many_items w.cursor max_sessions (length ss)), w)
  unfolding tpm_marshal_response check_session_count
  tpm_marshal_response-crowded f rc ss w many = rw (lt→ltb max_sessions (length ss) many)
