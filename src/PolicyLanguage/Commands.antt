-- ===== src/PolicyLanguage/Commands.antt =====
-- crates/policy-language/src/expression.rs: `TpmPolicyExpression::from_commands`. The stack has its last
-- branch first; a branch has its expressions in the order of the commands.
pub mod Flatten
pub mod Reading
pub mod Rebuild
pub mod Inverse
use tpm2_library.Common.{
  ℕ, zero, suc, List, [], ◌∷◌, ◌++◌, Option, none, some, Result, ok, err, ◌>>=◌, ◌>>◌, length, ltb,
  reject_if,
}
use tpm2_library.Protocol.Constants.Cc.{TpmCc}
use tpm2_library.PolicyLanguage.Error.{
  TpmPolicyError, branch_underflow, unbalanced_branches, invalid_policy_cc,
}
use tpm2_library.PolicyLanguage.Session.{Digest}
use tpm2_library.PolicyLanguage.Expression.{
  TpmPolicyExpression, pcr, secret, and_of, or_of, handle, Expressions, nil, cons, of_list,
  SecretCommand, TpmCommand, policy_restart_command, policy_pcr_command, policy_secret_command,
  policy_or_command, other_command, build_and_branch,
}

abbrev pub Stack : Type 0
Stack = List (List TpmPolicyExpression)

-- The last `n` branches, popped one by one: the first that is popped ends up last.
unfoldable pub pop_branches :
    ℕ → Stack → List TpmPolicyExpression → Result TpmPolicyError (List TpmPolicyExpression × Stack)
unfolding build_and_branch
pop_branches zero stack branches = ok (branches, stack)
pop_branches (suc n) [] branches = err branch_underflow
pop_branches (suc n) (branch ∷ stack) branches =
    pop_branches n stack (build_and_branch branch ∷ branches)

-- `branch_to_push_to.push(expr)`
unfoldable pub push : TpmPolicyExpression → Stack → Result TpmPolicyError Stack
push e [] = err branch_underflow
push e (branch ∷ stack) = ok ((branch ++ (e ∷ [])) ∷ stack)

-- An empty reference is none.
abbrev pub non_empty : Digest → Option Digest
non_empty [] = none
non_empty (b ∷ bs) = some (b ∷ bs)

unfoldable pub read_command : TpmCommand → Stack → Result TpmPolicyError Stack
unfolding pop_branches push of_list
read_command command [] = err branch_underflow
read_command policy_restart_command (top ∷ rest) = ok ([] ∷ (top ∷ rest))
read_command (policy_pcr_command digest selections) (top ∷ rest) =
    push (pcr selections (some digest)) (top ∷ rest)
read_command (policy_secret_command c) (top ∷ rest) =
    push (secret (handle c.auth_handle) (non_empty c.policy_ref)) (top ∷ rest)
read_command (policy_or_command digests) (top ∷ rest) = do
  reject_if (ltb (length (top ∷ rest)) (length digests)) branch_underflow
  (branches, left) ← pop_branches (length digests) (top ∷ rest) []
  push (or_of (of_list branches)) left
read_command (other_command cc) (top ∷ rest) = err (invalid_policy_cc cc)

unfoldable pub read_commands : List TpmCommand → Stack → Result TpmPolicyError Stack
unfolding read_command
read_commands [] stack = ok stack
read_commands (c ∷ cs) stack = read_command c stack >>= λ next. read_commands cs next

unfoldable pub finish : Stack → Result TpmPolicyError TpmPolicyExpression
unfolding build_and_branch
finish (branch ∷ []) = ok (build_and_branch branch)
finish [] = err unbalanced_branches
finish (a ∷ (b ∷ rest)) = err unbalanced_branches

unfoldable pub from_commands : List TpmCommand → Result TpmPolicyError TpmPolicyExpression
unfolding read_commands finish
from_commands commands = do stack ← read_commands commands ([] ∷ []); finish stack
