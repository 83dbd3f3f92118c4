-- ===== src/PolicyLanguage/Tests.antt =====
-- The compiler of crates/policy-language on a small policy, with a toy hash of two bytes.
use tpm2_library.Common.{ℕ, ◌%◌, List, [], ◌∷◌, some, ok, ◌≡◌, refl, length}
use tpm2_library.Common.Maps.{Map}
use tpm2_library.Protocol.Error.{TpmResult}
use tpm2_library.Protocol.Buffer
use tpm2_library.Protocol.Slots
use tpm2_library.Protocol.Integer.{to_be_bytes}
use tpm2_library.Protocol.Constants.Cc
use tpm2_library.Protocol.Constants.AlgId
use tpm2_library.PolicyLanguage.Hash
use tpm2_library.PolicyLanguage.Hash.{Crypto, hash_try_from}
use tpm2_library.PolicyLanguage.Session.{
  Digest, concat, new_session, policy_pcr, policy_or, policy_restart,
}
use tpm2_library.PolicyLanguage.Expression.{
  Selection, TpmPolicyContext, TpmPolicyExpression, pcr, and_of, or_of, nil, cons, TpmCommand,
  policy_pcr_command, policy_or_command, policy_restart_command, build_and_branch, new_context,
  count_pcrs,
}
use tpm2_library.PolicyLanguage.Expression.Context.{
  AllEmptyOr, new_context-banks, new_context-empty_bank,
}
use tpm2_library.PolicyLanguage.Compile.{compile, compile_walk, compile_walk_pcr, pcr_digest_of}
use tpm2_library.PolicyLanguage.Compile.Restart.{or_drops_conjunct}
use tpm2_library.PolicyLanguage.Commands.{from_commands}
use tpm2_library.PolicyLanguage.Commands.Flatten.{flatten}
use tpm2_library.PolicyLanguage.Commands.Inverse.{from_commands-compile}

abbrev toy : Crypto
toy = record {
  size = λ alg. 2;
  digest = λ alg chunks. ok (length (concat chunks) % 256 ∷ (length chunks ∷ []));
}

abbrev encode : List Selection → TpmResult (List ℕ)
encode selections = ok (length selections ∷ [])

abbrev no_context : TpmPolicyContext
no_context = record { names = []; pcrs = []; pcr_count = 0 }

abbrev first : TpmPolicyExpression
first = pcr [] (some (1 ∷ (1 ∷ [])))

abbrev second : TpmPolicyExpression
second = pcr [] (some (2 ∷ (2 ∷ [])))

abbrev policy : TpmPolicyExpression
policy = and_of (cons first (cons (or_of (cons second nil)) nil))

abbrev policy_commands : List TpmCommand
policy_commands =
    policy_pcr_command (1 ∷ (1 ∷ [])) []
    ∷ (policy_restart_command
        ∷ (policy_pcr_command (2 ∷ (2 ∷ [])) [] ∷ (policy_or_command ((9 ∷ (4 ∷ [])) ∷ []) ∷ [])))

run_policy : compile toy encode no_context policy AlgId.sha256 ≡ ok (policy_commands, 8 ∷ (3 ∷ []))
unfolding compile compile_walk compile_walk_pcr pcr_digest_of new_session policy_pcr policy_or
    policy_restart concat hash_try_from Buffer.try_from Buffer.deref Buffer.new
    Buffer.try_extend_from_slice Buffer.extend_to to_be_bytes Cc.discriminant Slots.write_each
run_policy = refl

sha256_known : hash_try_from AlgId.sha256 ≡ ok Hash.sha256
unfolding hash_try_from
sha256_known = refl

from_commands-compile_example :
    (conjuncts : List TpmPolicyExpression) × (flatten toy no_context Hash.sha256 policy
      ≡ ok conjuncts)
    × (from_commands policy_commands ≡ ok (build_and_branch conjuncts))
from_commands-compile_example =
    from_commands-compile toy encode no_context policy AlgId.sha256 Hash.sha256 policy_commands
      (8 ∷ (3 ∷ [])) sha256_known run_policy

or_drops_conjunct_example :
    (alone : List TpmCommand) × (compile toy encode no_context
        (or_of (cons second nil))
        AlgId.sha256
      ≡ ok (alone, 8 ∷ (3 ∷ [])))
or_drops_conjunct_example =
    or_drops_conjunct toy encode no_context first (cons second nil) AlgId.sha256 policy_commands
      (8 ∷ (3 ∷ [])) run_policy

-- Two banks of one register each.
abbrev bank : Map ℕ Digest
bank = (0, 5 ∷ []) ∷ []

abbrev banks : Map ℕ (Map ℕ Digest)
banks = (11, bank) ∷ ((12, bank) ∷ [])

new_banks : new_context [] banks ≡ ok (record { names = []; pcrs = banks; pcr_count = 1 })
unfolding new_context count_pcrs
new_banks = refl

new_context-banks_example :
    (◌≡◌ {A = Map ℕ (List ℕ)} [] []) × ((banks ≡ banks) × AllEmptyOr 1 banks)
new_context-banks_example =
    new_context-banks [] banks (record { names = []; pcrs = banks; pcr_count = 1 }) new_banks

new_context-empty_bank_example :
    new_context [] ((11, []) ∷ ((12, bank) ∷ []))
    ≡ ok (record { names = []; pcrs = (11, []) ∷ ((12, bank) ∷ []); pcr_count = 1 })
new_context-empty_bank_example = new_context-empty_bank [] 11 12 bank
