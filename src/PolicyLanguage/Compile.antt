-- ===== src/PolicyLanguage/Compile.antt =====
-- crates/policy-language/src/expression.rs: `TpmPolicyExpression::compile`. The command list is only
-- ever pushed to: a walk returns the commands that it pushes, with the session that it leaves. The
-- authorizations that go with a command are always empty and are left out.
pub mod Restart
use tpm2_library.Common.{
  ℕ, zero, suc, ◌+◌, ◌*◌, ◌/◌, ◌%◌, ◌^◌, List, [], ◌∷◌, ◌++◌, Option, none, some, Result, ok, err,
  ◌==◌, ltb, not, ◌>>=◌, ◌>>◌, length, reject_if, if◌then◌else◌, ok_or, map_err,
}
use tpm2_library.Common.Maps.{Map, get}
use native.Mathlib.Decide.{ℕ_discrete}
use tpm2_library.Protocol.Error.{TpmResult}
use tpm2_library.Protocol.Integer.{to_be_bytes}
use tpm2_library.Protocol.Enum
use tpm2_library.Protocol.Constants.Ht
use tpm2_library.Protocol.Constants.Rh
use tpm2_library.Protocol.Constants.AlgId
use tpm2_library.Protocol.Constants.AlgId.{TpmAlgId}
use tpm2_library.PolicyLanguage.Hash.{TpmHash, Crypto}
use tpm2_library.PolicyLanguage.Error.{
  TpmPolicyError, invalid_expression, invalid_handle_type, invalid_pcr_digest, pcr_digest_missing,
  too_many_branches,
}
use tpm2_library.PolicyLanguage.Session.{
  Digest, TpmPolicySession, hash, new_session, policy_pcr, policy_restart, policy_or, policy_secret,
}
use tpm2_library.PolicyLanguage.Expression.{
  Selection, TpmPolicyContext, TpmPolicyExpression, pcr, secret, and_of, or_of, handle, Expressions,
  nil, cons, SecretCommand, TpmCommand, policy_restart_command, policy_pcr_command,
  policy_secret_command, policy_or_command,
}

-- `for bit_index in 0..8`, from `bit_index` on for `n` bits
unfoldable pub collect_bits : Map ℕ Digest → ℕ → ℕ → ℕ → ℕ → Result TpmPolicyError (List ℕ)
collect_bits bank byte byte_index bit_index zero = ok []
collect_bits bank byte byte_index bit_index (suc n) = do
  value ←
      if byte / 2 ^ bit_index % 2 == 0
      then ok []
      else ok_or pcr_digest_missing (get ℕ_discrete (byte_index * 8 + bit_index) bank)
  rest ← collect_bits bank byte byte_index (bit_index + 1) n
  ok (value ++ rest)

-- `for (byte_index, &byte) in selection.pcr_select.iter().enumerate()`
unfoldable pub collect_bytes : Map ℕ Digest → ℕ → List ℕ → Result TpmPolicyError (List ℕ)
unfolding collect_bits
collect_bytes bank byte_index [] = ok []
collect_bytes bank byte_index (byte ∷ bytes) = do
  values ← collect_bits bank byte byte_index 0 8
  rest ← collect_bytes bank (byte_index + 1) bytes
  ok (values ++ rest)

unfoldable pub collect_pcrs : TpmPolicyContext → List Selection → Result TpmPolicyError (List ℕ)
unfolding collect_bytes AlgId.discriminant
collect_pcrs context [] = ok []
collect_pcrs context (s ∷ rest) = do
  bank ← ok_or pcr_digest_missing (get ℕ_discrete (AlgId.discriminant s.bank) context.pcrs)
  values ← collect_bytes bank 0 s.pcr_select
  others ← collect_pcrs context rest
  ok (values ++ others)

-- `copy_ref.unwrap_or_default()`
abbrev pub unwrap_or_default : Option Digest → Digest
unwrap_or_default none = []
unwrap_or_default (some digest) = digest

-- The root handles that stand for their own names.
permanent_name : Rh.TpmRh → Result TpmPolicyError (List ℕ)
unfolding Rh.discriminant to_be_bytes
permanent_name Rh.owner = ok (to_be_bytes 4 (Rh.discriminant Rh.owner))
permanent_name Rh.endorsement = ok (to_be_bytes 4 (Rh.discriminant Rh.endorsement))
permanent_name Rh.platform = ok (to_be_bytes 4 (Rh.discriminant Rh.platform))
permanent_name Rh.lockout = ok (to_be_bytes 4 (Rh.discriminant Rh.lockout))
permanent_name _ = err (invalid_handle_type (Ht.discriminant Ht.permanent))

-- The name of the object behind a handle of the type `ht`.
name_of : TpmPolicyContext → ℕ → Ht.TpmHt → Result TpmPolicyError (List ℕ)
unfolding permanent_name
name_of context h Ht.persistent = ok_or invalid_expression (get ℕ_discrete h context.names)
name_of context h Ht.transient = ok_or invalid_expression (get ℕ_discrete h context.names)
name_of context h Ht.permanent = do
  rh ←
      map_err (λ e. invalid_handle_type (Ht.discriminant Ht.permanent))
        (Enum.try_from 4 Rh.discriminant Rh.variants h)
  permanent_name rh
name_of context h ht = err (invalid_handle_type (Ht.discriminant ht))

unfoldable pub auth_name : TpmPolicyContext → ℕ → Result TpmPolicyError (List ℕ)
unfolding name_of
auth_name context h = do
  ht ←
      map_err (λ e. invalid_handle_type (h / 16777216 % 256))
        (Enum.try_from 1 Ht.discriminant Ht.variants (h / 16777216 % 256))
  name_of context h ht

-- `TpmlDigest` holds eight.
abbrev pub max_branches : ℕ
max_branches = 8

abbrev pub secret_command : ℕ → Digest → TpmCommand
secret_command h policy_ref = policy_secret_command (record {
  auth_handle = h;
  nonce_tpm = [];
  cp_hash_a = [];
  policy_ref = policy_ref;
  expiration = 0;
})

-- What a walk pushes, and the session it leaves.
abbrev pub Walked : Type 0
Walked = Result TpmPolicyError (List TpmCommand × TpmPolicySession)

unfoldable pub pcr_digest_of :
    Crypto
    → TpmPolicyContext
    → List Selection
    → Option Digest
    → TpmHash
    → Result TpmPolicyError Digest
unfolding collect_pcrs
pcr_digest_of K context selections (some digest) alg = ok digest
pcr_digest_of K context selections none alg = do
  values ← collect_pcrs context selections
  hash K alg (values ∷ [])

-- `encode` is the marshaling of a `TpmlPcrSelection`.
module _ (K : Crypto) (encode : List Selection → TpmResult (List ℕ))
    (context : TpmPolicyContext) where
  unfoldable pub compile_walk_pcr : List Selection → Option Digest → TpmPolicySession → Walked
  unfolding pcr_digest_of policy_pcr
  compile_walk_pcr selections digest s = do
    pcr_digest ← pcr_digest_of K context selections digest s.hash_alg
    reject_if (not (length pcr_digest == s.digest_size)) invalid_pcr_digest
    s' ← policy_pcr K (encode selections) pcr_digest s
    ok (policy_pcr_command pcr_digest selections ∷ [], s')

  unfoldable pub compile_walk_secret :
      TpmPolicyExpression → Option Digest → TpmPolicySession → Walked
  unfolding auth_name policy_secret
  compile_walk_secret (handle h) copy_ref s = do
    name ← auth_name context h
    s' ← policy_secret K name (unwrap_or_default copy_ref) s
    ok (secret_command h (unwrap_or_default copy_ref) ∷ [], s')
  compile_walk_secret _ copy_ref s = err invalid_expression

  unfoldable mutual
    unfolding compile_walk_pcr compile_walk_secret policy_restart policy_or

    pub compile_walk : TpmPolicyExpression → TpmPolicySession → Walked
    compile_walk (pcr selections digest) s = compile_walk_pcr selections digest s
    compile_walk (secret auth copy_ref) s = compile_walk_secret auth copy_ref s
    compile_walk (and_of es) s = compile_walk_and es s
    compile_walk (or_of es) s = do
      (commands, digests, s') ← compile_walk_or es [] s
      t ← policy_or K digests s'
      ok (commands ++ (policy_or_command digests ∷ []), t)
    compile_walk (handle h) s = err invalid_expression

    pub compile_walk_and : Expressions → TpmPolicySession → Walked
    compile_walk_and nil s = ok ([], s)
    compile_walk_and (cons e es) s = do
      (first, s') ← compile_walk e s
      (rest, t) ← compile_walk_and es s'
      ok (first ++ rest, t)

    -- The branches, with the digests of those before them.
    pub compile_walk_or :
        Expressions
        → List Digest
        → TpmPolicySession
        → Result TpmPolicyError (List TpmCommand × List Digest × TpmPolicySession)
    compile_walk_or nil digests s = ok ([], digests, s)
    compile_walk_or (cons e es) digests s = do
      fresh ← policy_restart K s
      (first, s') ← compile_walk e fresh
      reject_if (not (ltb (length digests) max_branches)) too_many_branches
      (rest, all, t) ← compile_walk_or es (digests ++ (s'.digest ∷ [])) s'
      ok ((policy_restart_command ∷ []) ++ (first ++ rest), all, t)

  -- The commands, and the digest of the policy.
  unfoldable pub compile :
      TpmPolicyExpression → TpmAlgId → Result TpmPolicyError (List TpmCommand × Digest)
  unfolding compile_walk new_session
  compile e alg = do
    s ← new_session K alg
    (commands, t) ← compile_walk e s
    ok (commands, t.digest)
