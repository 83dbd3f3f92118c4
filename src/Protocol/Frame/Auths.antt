-- ===== src/Protocol/Frame/Auths.antt =====
-- crates/protocol/src/frame/wire.rs: the walk over the authorization area of a command. A cursor is a
-- slice of the whole frame `base`, which gives an error its offset. The loop stops at the limit on
-- the number of authorizations, so it is structural recursion on how many are still allowed.
pub mod Grammar
use tpm2_library.Common.{
  ℕ, zero, suc, ◌+◌, List, length, drop, Bool, ltb, ◌==◌, if◌then◌else◌, ok, err, ok_or, ◌>>=◌,
  ◌>>◌, reject_if,
}
use tpm2_library.Common.Nat.{checked_add}
use tpm2_library.Protocol.Error.{
  TpmResult, Slice, tpm_offset, unexpected_end, integer_too_large, too_many_items,
}
use tpm2_library.Protocol.Buffer.Tpm2b.{read_size}
use tpm2_library.Protocol.Frame.{max_sessions}

-- `&buf[n..]`
abbrev pub advance : ℕ → Slice → Slice
advance n s = record { start = s.start + n; bytes = drop n s.bytes }

module _ (base : List ℕ) where
  unfoldable pub skip_tpm2b : Slice → TpmResult Slice
  skip_tpm2b s = do
    reject_if (ltb (length s.bytes) 2) (unexpected_end (tpm_offset base s) 2 (length s.bytes))
    let size = read_size s.bytes
    end ← ok_or (integer_too_large (tpm_offset base s) size) (checked_add 2 size)
    reject_if (ltb (length s.bytes) end) (unexpected_end (tpm_offset base s) end (length s.bytes))
    ok (advance end s)

  -- The body of the loop: session handle, nonce, attributes and HMAC.
  unfoldable pub skip_auth_command : Slice → TpmResult Slice
  skip_auth_command s = do
    reject_if (ltb (length s.bytes) 4) (unexpected_end (tpm_offset base s) 4 (length s.bytes))
    after_nonce ← skip_tpm2b (advance 4 s)
    reject_if (length after_nonce.bytes == 0) (unexpected_end (tpm_offset base after_nonce) 1 0)
    skip_tpm2b (advance 1 after_nonce)

  -- The loop, with `max_sessions` less the count so far.
  unfoldable pub auth_commands : ℕ → Slice → TpmResult (Unit {0})
  auth_commands zero s =
      if length s.bytes == 0
      then ok tt
      else err (too_many_items (tpm_offset base s) max_sessions (max_sessions + 1))
  auth_commands (suc allowed) s =
      let rest = skip_auth_command s >>= λ s'. auth_commands allowed s' in
      if length s.bytes == 0 then ok tt else rest

  unfoldable pub validate_auth_commands : Slice → TpmResult (Unit {0})
  validate_auth_commands s = auth_commands max_sessions s
