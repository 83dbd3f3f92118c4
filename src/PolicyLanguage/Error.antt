-- ===== src/PolicyLanguage/Error.antt =====
-- crates/policy-language/src/error.rs: `TpmPolicyError`.
use tpm2_library.Common.{ℕ, List}
use tpm2_library.Protocol.Error.{TpmError}
use tpm2_library.Protocol.Constants.Cc.{TpmCc}
use tpm2_library.PolicyLanguage.Hash.{TpmHash, TpmCryptoError}

pub data TpmPolicyError : Type 0 where
  crypto : TpmCryptoError → TpmPolicyError
  invalid_policy_cc : TpmCc → TpmPolicyError
  invalid_expression : TpmPolicyError
  invalid_handle_type : ℕ → TpmPolicyError
  invalid_token : List ℕ → TpmPolicyError
  invalid_pcr_digest : TpmPolicyError
  invalid_pcr_digest_algorithm : TpmPolicyError
  invalid_pcr_selection : TpmPolicyError
  marshal_failed : TpmError → TpmPolicyError
  branch_underflow : TpmPolicyError
  unbalanced_branches : TpmPolicyError
  parenthesis_mismatch : TpmPolicyError
  pcr_bank_not_available : TpmHash → TpmPolicyError
  pcr_count_mismatch : TpmPolicyError
  pcr_digest_missing : TpmPolicyError
  pcr_digest_too_large : TpmPolicyError
  pcr_index_too_large : TpmPolicyError
  pcr_selection_too_large : TpmPolicyError
  too_many_branches : TpmPolicyError
  trailing_tokens : TpmPolicyError
  tokens_end : TpmPolicyError
