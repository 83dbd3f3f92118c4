-- ===== src/Protocol/Frame.antt =====
-- crates/protocol/src/frame/marshal.rs: `tpm_marshal_command` and `tpm_marshal_response`. A frame is
-- a header of tag, size and code, then handles, authorizations and parameters. `TpmFrame` is the
-- trait of the bodies (frame/mod.rs), as a record of its operations; the type of an authorization is
-- given by its codec. The sizes are computed, and checked, before the first byte is written.
pub mod Sizes
pub mod Command
pub mod Response
pub mod Failure
pub mod Checks
pub mod Answer
pub mod Auths
pub mod Envelope
pub mod Stream
use tpm2_library.Common.{
  ℕ, ◌+◌, ◌-◌, List, [], ◌∷◌, length, Bool, true, false, not, ◌&&◌, ltb, ◌==◌, if◌then◌else◌, ok,
  err, ok_or, ◌>>=◌, reject_if,
}
use tpm2_library.Common.Nat
use tpm2_library.Protocol.Error.{
  TpmResult, integer_too_large, unexpected_end, invalid_tag, too_many_items,
}
use tpm2_library.Protocol.Writer.{TpmWriter, Marshal, pure, fail, ◌>>◌, marshal_each}
use tpm2_library.Protocol.Codec.{Codec}
use tpm2_library.Protocol.Integer
use tpm2_library.Protocol.Integer.{TpmInt}
use tpm2_library.Protocol.Enum
use tpm2_library.Protocol.Constants.Cc
use tpm2_library.Protocol.Constants.Cc.{TpmCc}
use tpm2_library.Protocol.Constants.St
use tpm2_library.Protocol.Constants.St.{TpmSt, no_sessions, sessions}
use tpm2_library.Protocol.Rc
use tpm2_library.Protocol.Rc.{TpmRc}
use tpm2_library.Protocol.Rc.Base.{discriminant, success}

abbrev pub tpm_header_size : ℕ
tpm_header_size = 10

abbrev pub max_sessions : ℕ
max_sessions = 8

pub record TpmFrame : Type 0 where
  pub cc : TpmCc
  pub handles : ℕ
  pub len : ℕ
  pub marshal_handles : Marshal
  pub marshal_parameters : Marshal

-- The derived equality of tags.
abbrev pub same_tag : TpmSt → TpmSt → Bool
same_tag a b = St.discriminant a == St.discriminant b

abbrev pub marshal_tag : TpmSt → Marshal
marshal_tag tag = Enum.marshal 2 St.discriminant tag

-- `let a = r?; k(a)` where `k` writes.
abbrev pub with_ok {ℓ} : {A : Type ℓ} → TpmResult A → (A → Marshal) → Marshal
with_ok (ok a) k = k a
with_ok (err e) k = fail e

unfoldable pub handle_area_size : TpmFrame → ℕ → TpmResult ℕ
handle_area_size frame offset =
    ok_or (integer_too_large offset frame.handles) (Nat.checked_mul frame.handles 4)

unfoldable pub body_areas : TpmFrame → ℕ → TpmResult (ℕ × ℕ)
unfolding handle_area_size
body_areas frame offset = do
  handle_area ← handle_area_size frame offset
  param_area ←
      ok_or (unexpected_end offset handle_area frame.len) (Nat.checked_sub frame.len handle_area)
  ok (handle_area, param_area)

unfoldable pub checked_add : ℕ → ℕ → ℕ → TpmResult ℕ
checked_add lhs rhs offset = ok_or (integer_too_large offset lhs) (Nat.checked_add lhs rhs)

-- `TpmUint32::try_from(size)`, with the error of the frame.
unfoldable pub size_field : ℕ → ℕ → ℕ → TpmResult (TpmInt 4)
size_field size offset blamed = ok_or (integer_too_large offset blamed) (Integer.try_from 4 size)

module _ {S : Type 0} where
  abbrev pub no_items : List S → Bool
  no_items [] = true
  no_items (s ∷ ss) = false

  abbrev pub response_tag : List S → TpmSt
  response_tag ss = if no_items ss then no_sessions else sessions

abbrev pub agree : Bool → Bool → Bool
agree true b = b
agree false b = not b

-- `matches!(rc, TpmRc::Fmt0(TpmRcBase::Success))`
abbrev pub is_success : TpmRc → Bool
is_success (Rc.fmt0 b) = discriminant b == discriminant success
is_success (Rc.fmt1 f) = false
is_success (Rc.warn b) = false

module _ {S : Type 0} (c : Codec S) where
  -- The `try_fold` of `sessions_len`, from a total so far.
  unfoldable pub sessions_len : ℕ → List S → ℕ → TpmResult ℕ
  sessions_len total [] offset = ok total
  sessions_len total (s ∷ ss) offset =
      checked_add total (c.len s) offset >>= λ total'. sessions_len total' ss offset

  unfoldable pub check_session_count : List S → ℕ → TpmResult (Unit {0})
  check_session_count ss offset =
      reject_if (ltb max_sessions (length ss)) (too_many_items offset max_sessions (length ss))

  -- The size of the authorization area with its size field, by the tag.
  unfoldable pub auth_area_size : TpmSt → List S → ℕ → TpmResult ℕ
  auth_area_size tag ss offset =
      if same_tag tag sessions
      then (sessions_len 0 ss offset >>= λ n. checked_add 4 n offset)
      else ok 0

  -- Every check and size that stands before the first write; the authorization area's size and the
  -- command's.
  unfoldable pub command_sizes : TpmFrame → TpmSt → List S → ℕ → TpmResult (ℕ × TpmInt 4)
  unfolding auth_area_size
  command_sizes command tag ss offset = do
    known ←
        reject_if (not (same_tag tag no_sessions) && not (same_tag tag sessions))
          (invalid_tag offset (St.discriminant tag))
    matched ←
        reject_if (agree (same_tag tag sessions) (no_items ss))
          (invalid_tag offset (St.discriminant tag))
    counted ← check_session_count ss offset
    (handle_area, param_area) ← body_areas command offset
    auth_area ← auth_area_size tag ss offset
    front ← checked_add handle_area auth_area offset
    body ← checked_add front param_area offset
    size ← checked_add tpm_header_size body offset
    field ← size_field size offset size
    ok (auth_area, field)

  unfoldable pub marshal_auths : TpmSt → List S → ℕ → ℕ → Marshal
  marshal_auths tag ss auth_area offset =
      if same_tag tag sessions
      then with_ok (size_field (auth_area - 4) offset auth_area)
          (λ n. Integer.marshal 4 n >> marshal_each c.marshal ss)
      else pure

  unfoldable pub tpm_marshal_command : TpmFrame → TpmSt → List S → Marshal
  unfolding marshal_auths
  tpm_marshal_command command tag ss w =
      with_ok (command_sizes command tag ss w.cursor)
        (λ (auth_area, size).
          marshal_tag tag
          >> Integer.marshal 4 size
          >> Enum.marshal 4 Cc.discriminant command.cc
          >> command.marshal_handles
          >> marshal_auths tag ss auth_area w.cursor
          >> command.marshal_parameters)
        w

  -- The size of the parameters and of the whole response.
  unfoldable pub response_sizes : TpmFrame → List S → ℕ → TpmResult (ℕ × TpmInt 4)
  response_sizes response ss offset = do
    (handle_area, param_area) ← body_areas response offset
    auth_area ← sessions_len 0 ss offset
    front ← checked_add handle_area (if no_items ss then 0 else 4) offset
    middle ← checked_add front param_area offset
    body ← checked_add middle auth_area offset
    size ← checked_add tpm_header_size body offset
    field ← size_field size offset size
    ok (param_area, field)

  -- The response to a command that failed: a bare header.
  unfoldable pub marshal_failure : TpmRc → List S → ℕ → Marshal
  marshal_failure rc ss offset =
      if not (no_items ss)
      then fail (invalid_tag offset (St.discriminant sessions))
      else (marshal_tag no_sessions
          >> Integer.marshal 4 (Integer.new 4 tpm_header_size)
          >> Rc.marshal rc)

  unfoldable pub marshal_success : TpmFrame → TpmRc → List S → ℕ → Marshal
  marshal_success response rc ss offset =
      with_ok (response_sizes response ss offset) (λ (param_area, size).
        marshal_tag (response_tag ss)
        >> Integer.marshal 4 size
        >> Rc.marshal rc
        >> response.marshal_handles
        >> (if no_items ss
            then pure
            else with_ok (size_field param_area offset param_area) (Integer.marshal 4))
        >> response.marshal_parameters
        >> (if no_items ss then pure else marshal_each c.marshal ss))

  unfoldable pub tpm_marshal_response : TpmFrame → TpmRc → List S → Marshal
  unfolding marshal_failure marshal_success
  tpm_marshal_response response rc ss w =
      with_ok (check_session_count ss w.cursor)
        (λ done.
          if is_success rc
          then marshal_success response rc ss w.cursor
          else marshal_failure rc ss w.cursor)
        w
