-- ===== src/PolicyLanguage/Expression.antt =====
-- crates/policy-language/src/lib.rs and expression.rs: the context of a policy, the expressions, and
-- the TPM commands that they are compiled to. Handles of the policy session are always 0 and left out.
pub mod Context
use tpm2_library.Common.{
  ℕ, zero, suc, ◌+◌, List, [], ◌∷◌, ◌++◌, Option, Result, ok, err, ◌==◌, not, ◌>>=◌, ◌>>◌, length,
  reject_if, if◌then◌else◌,
}
use tpm2_library.Common.Maps.{Map}
use tpm2_library.Protocol.Constants.Cc.{TpmCc}
use tpm2_library.Protocol.Constants.AlgId.{TpmAlgId}
use tpm2_library.PolicyLanguage.Error.{TpmPolicyError, pcr_count_mismatch}
use tpm2_library.PolicyLanguage.Session.{Digest}

-- `TpmsPcrSelection`
pub record Selection : Type 0 where
  pub bank : TpmAlgId
  pub pcr_select : List ℕ

-- Banks are looked up by the discriminant of their algorithm.
pub record TpmPolicyContext : Type 0 where
  pub names : Map ℕ (List ℕ)
  pub pcrs : Map ℕ (Map ℕ Digest)
  pub pcr_count : ℕ

unfoldable pub count_pcrs : ℕ → Map ℕ (Map ℕ Digest) → Result TpmPolicyError ℕ
count_pcrs pcr_count [] = ok pcr_count
count_pcrs pcr_count ((alg, bank) ∷ rest) =
    let count = if pcr_count == 0 then length bank else pcr_count in
    reject_if (not (count == length bank)) pcr_count_mismatch >> count_pcrs count rest

unfoldable pub new_context :
    Map ℕ (List ℕ) → Map ℕ (Map ℕ Digest) → Result TpmPolicyError TpmPolicyContext
unfolding count_pcrs
new_context names pcrs = do
  pcr_count ← count_pcrs 0 pcrs
  ok (record { names = names; pcrs = pcrs; pcr_count = pcr_count })

mutual
  pub data TpmPolicyExpression : Type 0 where
    pcr : List Selection → Option Digest → TpmPolicyExpression
    secret : TpmPolicyExpression → Option Digest → TpmPolicyExpression
    and_of : Expressions → TpmPolicyExpression
    or_of : Expressions → TpmPolicyExpression
    handle : ℕ → TpmPolicyExpression

  -- `Vec<TpmPolicyExpression>`
  pub data Expressions : Type 0 where
    nil : Expressions
    cons : TpmPolicyExpression → Expressions → Expressions

unfoldable pub of_list : List TpmPolicyExpression → Expressions
of_list [] = nil
of_list (e ∷ es) = cons e (of_list es)

-- `TpmPolicySecretCommand`
pub record SecretCommand : Type 0 where
  pub auth_handle : ℕ
  pub nonce_tpm : List ℕ
  pub cp_hash_a : Digest
  pub policy_ref : Digest
  pub expiration : ℕ

-- `TpmCommandValue`, as far as policies go; any other command is its code.
pub data TpmCommand : Type 0 where
  policy_restart_command : TpmCommand
  policy_pcr_command : Digest → List Selection → TpmCommand
  policy_secret_command : SecretCommand → TpmCommand
  policy_or_command : List Digest → TpmCommand
  other_command : TpmCc → TpmCommand

-- `build_and_branch`
unfoldable pub build_and_branch : List TpmPolicyExpression → TpmPolicyExpression
unfolding of_list
build_and_branch (e ∷ []) = e
build_and_branch [] = and_of nil
build_and_branch (d ∷ (e ∷ es)) = and_of (of_list (d ∷ (e ∷ es)))
