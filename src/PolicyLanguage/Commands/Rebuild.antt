-- ===== src/PolicyLanguage/Commands/Rebuild.antt =====
-- What the commands of each kind of expression do to the stack of `from_commands`.
use tpm2_library.Common.{
  ℕ, ◌+◌, ◌<◌, List, [], ◌∷◌, ◌++◌, append_assoc, Option, some, Result, ok, ◌>>=◌, ◌>>◌, map,
  length, ◌≡◌, refl, sym, ap, ◌∙◌, subst, arith, >>=-ok, reject_if, ok-pair, not, ◌==◌,
}
use tpm2_library.Protocol.Error.{TpmResult}
use tpm2_library.PolicyLanguage.Hash.{Crypto}
use tpm2_library.PolicyLanguage.Error.{TpmPolicyError, invalid_pcr_digest}
use tpm2_library.PolicyLanguage.Session.{
  Digest, TpmPolicySession, policy_pcr, policy_or, policy_secret,
}
use tpm2_library.PolicyLanguage.Session.Laws.{
  SameAlgorithm, policy_pcr-SameAlgorithm, policy_or-SameAlgorithm, policy_secret-SameAlgorithm,
}
use tpm2_library.PolicyLanguage.Expression.{
  Selection, TpmPolicyContext, TpmPolicyExpression, pcr, secret, and_of, or_of, handle, Expressions,
  cons, of_list, build_and_branch, TpmCommand, policy_restart_command, policy_pcr_command,
  policy_or_command,
}
use tpm2_library.PolicyLanguage.Compile.{
  compile_walk_pcr, compile_walk_secret, pcr_digest_of, auth_name, unwrap_or_default,
  secret_command,
}
use tpm2_library.PolicyLanguage.Commands.{
  Stack, pop_branches, push, read_command, read_commands, non_empty,
}
use tpm2_library.PolicyLanguage.Commands.Flatten.{flatten, flatten_all, flatten_each}
use tpm2_library.PolicyLanguage.Commands.Reading.{
  read_two, stacked, length-stacked, pop-stacked, read_or,
}

module _ (K : Crypto) (encode : List Selection → TpmResult (List ℕ))
    (context : TpmPolicyContext) where
  -- The commands that a walk pushes add the conjuncts of the expression to the branch on top.
  pub record Rebuilt (s t : TpmPolicySession) (commands : List TpmCommand)
      (flat : Result TpmPolicyError (List TpmPolicyExpression)) : Type 0 where
    pub same : SameAlgorithm s t
    pub conjuncts : List TpmPolicyExpression
    pub flat_eq : flat ≡ ok conjuncts
    pub reads :
        (top : List TpmPolicyExpression) (rest : Stack)
        → read_commands commands (top ∷ rest) ≡ ok ((top ++ conjuncts) ∷ rest)

  -- Those of the branches of a disjunction leave the branches on the stack, a digest for each.
  pub record RebuiltEach (s t : TpmPolicySession) (commands : List TpmCommand) (before after : ℕ)
      (flat : Result TpmPolicyError Stack) : Type 0 where
    pub same : SameAlgorithm s t
    pub branches : Stack
    pub flat_eq : flat ≡ ok branches
    pub count : after ≡ before + length branches
    pub reads :
        (stack : Stack)
        → 0 < length stack
        → read_commands commands stack ≡ ok (stacked branches stack)

  same_twice :
      (s t u : TpmPolicySession) → SameAlgorithm s t → SameAlgorithm t u → SameAlgorithm s u
  same_twice s t u a b = record { hash_eq = b.hash_eq ∙ a.hash_eq; size_eq = b.size_eq ∙ a.size_eq }

  pub pcr_commands :
      (selections : List Selection) (digest : Option Digest) (s t : TpmPolicySession)
      (commands : List TpmCommand)
      → compile_walk_pcr K encode context selections digest s ≡ ok (commands, t)
      → Rebuilt s t commands (flatten K context s.hash_alg (pcr selections digest))
  unfolding compile_walk_pcr flatten read_commands read_command push
  pcr_commands selections digest s t commands e =
      let check : Digest → Result TpmPolicyError (Unit {0}) =
        λ x. reject_if (not (length x == s.digest_size)) invalid_pcr_digest in
      let last : Digest → Result TpmPolicyError (List TpmCommand × TpmPolicySession) = λ x.
        policy_pcr K (encode selections) x s >>= λ u.
        ok (policy_pcr_command x selections ∷ [], u) in
      let (x, found, next) =
        >>=-ok (pcr_digest_of K context selections digest s.hash_alg) (λ x. check x >> last x) e in
      let (_, _, next2) = >>=-ok (check x) (λ _. last x) next in
      let (u, hashed, done) =
        >>=-ok (policy_pcr K (encode selections) x s)
          (λ u. ok (policy_pcr_command x selections ∷ [], u)) next2 in
      let pair = ok-pair done in
      record {
        same =
            subst (SameAlgorithm s) pair.1
              (policy_pcr-SameAlgorithm K (encode selections) x s u hashed);
        conjuncts = pcr selections (some x) ∷ [];
        flat_eq = ap (λ r. r >>= λ d. ok (pcr selections (some d) ∷ [])) found;
        reads = λ top rest. ap (λ cs. read_commands cs (top ∷ rest)) (sym pair.0);
      }

  pub secret_commands :
      (auth : TpmPolicyExpression) (copy_ref : Option Digest) (s t : TpmPolicySession)
      (commands : List TpmCommand)
      → compile_walk_secret K encode context auth copy_ref s ≡ ok (commands, t)
      → Rebuilt s t commands (flatten K context s.hash_alg (secret auth copy_ref))
  unfolding compile_walk_secret flatten read_commands read_command push
  secret_commands (handle h) copy_ref s t commands e =
      let last : List ℕ → Result TpmPolicyError (List TpmCommand × TpmPolicySession) = λ name.
        policy_secret K name (unwrap_or_default copy_ref) s >>= λ u.
        ok (secret_command h (unwrap_or_default copy_ref) ∷ [], u) in
      let (name, _, next) = >>=-ok (auth_name context h) last e in
      let (u, hashed, done) =
        >>=-ok (policy_secret K name (unwrap_or_default copy_ref) s)
          (λ u. ok (secret_command h (unwrap_or_default copy_ref) ∷ [], u)) next in
      let pair = ok-pair done in
      record {
        same =
            subst (SameAlgorithm s) pair.1
              (policy_secret-SameAlgorithm K name (unwrap_or_default copy_ref) s u hashed);
        conjuncts = secret (handle h) (non_empty (unwrap_or_default copy_ref)) ∷ [];
        flat_eq = refl;
        reads = λ top rest. ap (λ cs. read_commands cs (top ∷ rest)) (sym pair.0);
      }
  secret_commands (pcr a b) copy_ref s t commands e = cc
  secret_commands (secret a b) copy_ref s t commands e = cc
  secret_commands (and_of es) copy_ref s t commands e = cc
  secret_commands (or_of es) copy_ref s t commands e = cc

  pub join :
      (s t u : TpmPolicySession) (cs ds : List TpmCommand) (e : TpmPolicyExpression)
      (es : Expressions)
      → t.hash_alg ≡ s.hash_alg
      → Rebuilt s t cs (flatten K context s.hash_alg e)
      → Rebuilt t u ds (flatten_all K context t.hash_alg es)
      → Rebuilt s u (cs ++ ds) (flatten_all K context s.hash_alg (cons e es))
  unfolding flatten
  join s t u cs ds e es alg a b = record {
    same = same_twice s t u a.same b.same;
    conjuncts = a.conjuncts ++ b.conjuncts;
    flat_eq = rw (a.flat_eq, ap (λ h. flatten_all K context h es) (sym alg) ∙ b.flat_eq) refl;
    reads = λ top rest.
        read_two cs ds (top ∷ rest) ((top ++ a.conjuncts) ∷ rest)
          ((top ++ (a.conjuncts ++ b.conjuncts)) ∷ rest) (a.reads top rest)
          (b.reads (top ++ a.conjuncts) rest
            ∙ ap (λ x. ok (x ∷ rest)) (append_assoc top a.conjuncts b.conjuncts));
  }

  pub join_each :
      (s r t u : TpmPolicySession) (cs ds : List TpmCommand) (before after : ℕ)
      (e : TpmPolicyExpression) (es : Expressions)
      → SameAlgorithm s r
      → Rebuilt r t cs (flatten K context s.hash_alg e)
      → RebuiltEach t u ds (before + 1) after (flatten_each K context s.hash_alg es)
      → RebuiltEach s u
          ((policy_restart_command ∷ []) ++ (cs ++ ds))
          before
          after
          (flatten_each K context s.hash_alg (cons e es))
  unfolding flatten read_commands read_command
  join_each s r t u cs ds before after e es fresh a b = record {
    same = same_twice s t u (same_twice s r t fresh a.same) b.same;
    branches = a.conjuncts ∷ b.branches;
    flat_eq = rw (a.flat_eq, b.flat_eq) refl;
    count = omega (arith, b.count);
    reads = λ stack some_branch. pushed stack some_branch;
  }
    where
      pushed :
          (stack : Stack)
          → 0 < length stack
          → read_commands ((policy_restart_command ∷ []) ++ (cs ++ ds)) stack
            ≡ ok (stacked (a.conjuncts ∷ b.branches) stack)
      pushed [] some_branch = absurd (omega arith)
      pushed (x ∷ stack) some_branch =
          read_two cs ds ([] ∷ (x ∷ stack)) (a.conjuncts ∷ (x ∷ stack))
            (stacked b.branches (a.conjuncts ∷ (x ∷ stack))) (a.reads [] (x ∷ stack))
            (b.reads (a.conjuncts ∷ (x ∷ stack)) (omega arith))

  pub close_or :
      (s t u : TpmPolicySession) (cs : List TpmCommand) (digests : List Digest) (es : Expressions)
      → policy_or K digests t ≡ ok u
      → RebuiltEach s t cs 0 (length digests) (flatten_each K context s.hash_alg es)
      → Rebuilt s u
          (cs ++ (policy_or_command digests ∷ []))
          (flatten K context s.hash_alg (or_of es))
  unfolding flatten
  close_or s t u cs digests es hashed b = record {
    same = same_twice s t u b.same (policy_or-SameAlgorithm K digests t u hashed);
    conjuncts = or_of (of_list (map build_and_branch b.branches)) ∷ [];
    flat_eq = rw b.flat_eq refl;
    reads = λ top rest.
        let eq : length digests ≡ length b.branches = omega (arith, b.count) in
        read_two cs (policy_or_command digests ∷ []) (top ∷ rest) (stacked b.branches (top ∷ rest))
          ((top ++ (or_of (of_list (map build_and_branch b.branches)) ∷ [])) ∷ rest)
          (b.reads (top ∷ rest) (omega arith))
          (read_or digests (stacked b.branches (top ∷ rest)) rest top
            (map build_and_branch b.branches)
            (omega (arith, length-stacked b.branches (top ∷ rest)))
            (omega (arith, eq, length-stacked b.branches (top ∷ rest)))
            (ap (λ n. pop_branches n (stacked b.branches (top ∷ rest)) []) eq
              ∙ pop-stacked b.branches (top ∷ rest)));
  }
