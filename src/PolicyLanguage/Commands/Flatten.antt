-- ===== src/PolicyLanguage/Commands/Flatten.antt =====
-- What is left of a policy expression when it is read back from its commands: a conjunction inside a
-- conjunction is spliced into it, a PCR digest that is taken from the context is written out, and an
-- empty reference is none.
use tpm2_library.Common.{List, [], ◌∷◌, ◌++◌, Option, some, Result, ok, err, ◌>>=◌, map}
use tpm2_library.PolicyLanguage.Hash.{TpmHash, Crypto}
use tpm2_library.PolicyLanguage.Error.{TpmPolicyError, invalid_expression}
use tpm2_library.PolicyLanguage.Session.{Digest}
use tpm2_library.PolicyLanguage.Expression.{
  TpmPolicyContext, TpmPolicyExpression, pcr, secret, and_of, or_of, handle, Expressions, nil, cons,
  of_list, build_and_branch,
}
use tpm2_library.PolicyLanguage.Compile.{pcr_digest_of, unwrap_or_default}
use tpm2_library.PolicyLanguage.Commands.{non_empty}

module _ (K : Crypto) (context : TpmPolicyContext) (alg : TpmHash) where
  abbrev pub flatten_secret :
      TpmPolicyExpression → Option Digest → Result TpmPolicyError (List TpmPolicyExpression)
  flatten_secret (handle h) copy_ref =
      ok (secret (handle h) (non_empty (unwrap_or_default copy_ref)) ∷ [])
  flatten_secret _ copy_ref = err invalid_expression

  unfoldable mutual
    unfolding pcr_digest_of of_list build_and_branch

    -- The conjuncts of an expression.
    pub flatten : TpmPolicyExpression → Result TpmPolicyError (List TpmPolicyExpression)
    flatten (pcr selections digest) = do
      resolved ← pcr_digest_of K context selections digest alg
      ok (pcr selections (some resolved) ∷ [])
    flatten (secret auth copy_ref) = flatten_secret auth copy_ref
    flatten (and_of es) = flatten_all es
    flatten (or_of es) = do
      branches ← flatten_each es
      ok (or_of (of_list (map build_and_branch branches)) ∷ [])
    flatten (handle h) = err invalid_expression

    pub flatten_all : Expressions → Result TpmPolicyError (List TpmPolicyExpression)
    flatten_all nil = ok []
    flatten_all (cons e es) = do first ← flatten e; rest ← flatten_all es; ok (first ++ rest)

    pub flatten_each : Expressions → Result TpmPolicyError (List (List TpmPolicyExpression))
    flatten_each nil = ok []
    flatten_each (cons e es) = do first ← flatten e; rest ← flatten_each es; ok (first ∷ rest)
