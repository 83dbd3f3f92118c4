-- ===== src/PolicyLanguage/Commands/Inverse.antt =====
-- crates/policy-language/src/expression.rs: `from_commands` rebuilds what `compile` was given.
use tpm2_library.Common.{
  ℕ, ◌+◌, List, [], ◌∷◌, ◌++◌, append-nil, Result, ok, ◌>>=◌, ◌>>◌, length, length-append, ◌≡◌,
  refl, sym, ap, ◌∙◌, subst, arith, >>=-ok, reject_if, ok-pair, ltb, not,
}
use tpm2_library.Protocol.Error.{TpmResult}
use tpm2_library.Protocol.Constants.AlgId.{TpmAlgId}
use tpm2_library.PolicyLanguage.Hash.{TpmHash, Crypto, hash_try_from}
use tpm2_library.PolicyLanguage.Error.{TpmPolicyError, too_many_branches}
use tpm2_library.PolicyLanguage.Session.{
  Digest, TpmPolicySession, policy_restart, policy_or, new_session,
}
use tpm2_library.PolicyLanguage.Session.Laws.{policy_restart-SameAlgorithm, new_session-hash}
use tpm2_library.PolicyLanguage.Expression.{
  Selection, TpmPolicyContext, TpmPolicyExpression, pcr, secret, and_of, or_of, handle, Expressions,
  nil, cons, build_and_branch, TpmCommand, policy_restart_command, policy_or_command,
}
use tpm2_library.PolicyLanguage.Compile.{
  compile_walk, compile_walk_and, compile_walk_or, compile, max_branches,
}
use tpm2_library.PolicyLanguage.Commands.{read_commands, finish, from_commands}
use tpm2_library.PolicyLanguage.Commands.Flatten.{flatten, flatten_all, flatten_each}
use tpm2_library.PolicyLanguage.Commands.Rebuild.{
  Rebuilt, RebuiltEach, pcr_commands, secret_commands, join, join_each, close_or,
}

module _ (K : Crypto) (encode : List Selection → TpmResult (List ℕ))
    (context : TpmPolicyContext) where
  ok-triple :
      (a b : List TpmCommand) (c d : List Digest) (s t : TpmPolicySession)
      → ◌≡◌ {A = Result TpmPolicyError (List TpmCommand × List Digest × TpmPolicySession)}
          (ok (a, c, s))
          (ok (b, d, t))
      → (a ≡ b) × ((c ≡ d) × (s ≡ t))
  ok-triple a b c d s t e = (cc, (cc, cc))

  abbrev walk_or :
      Expressions
      → List Digest
      → TpmPolicySession
      → Result TpmPolicyError (List TpmCommand × List Digest × TpmPolicySession)
  walk_or es ds s = compile_walk_or K encode context es ds s

  mutual
    unfolding compile_walk flatten read_commands

    pub walk_commands :
        (e : TpmPolicyExpression) (s t : TpmPolicySession) (commands : List TpmCommand)
        → compile_walk K encode context e s ≡ ok (commands, t)
        → Rebuilt K encode context s t commands (flatten K context s.hash_alg e)
    walk_commands (pcr selections digest) s t commands w =
        pcr_commands K encode context selections digest s t commands w
    walk_commands (secret auth copy_ref) s t commands w =
        secret_commands K encode context auth copy_ref s t commands w
    walk_commands (and_of es) s t commands w = conjunct_commands es s t commands w
    walk_commands (handle h) s t commands w = cc
    walk_commands (or_of es) s t commands w =
        let close : List TpmCommand × List Digest × TpmPolicySession
            → Result TpmPolicyError (List TpmCommand × TpmPolicySession) =
          λ (cs, digests, u).
            policy_or K digests u >>= λ v. ok (cs ++ (policy_or_command digests ∷ []), v) in
        let (walked, each, next) = >>=-ok (walk_or es [] s) close w in
        let (cs, digests, u) = walked in
        let (v, hashed, done) =
          >>=-ok (policy_or K digests u) (λ v. ok (cs ++ (policy_or_command digests ∷ []), v))
            next in
        let pair = ok-pair done in
        subst (λ c. Rebuilt K encode context s t c (flatten K context s.hash_alg (or_of es))) pair.0
          (subst
            (λ x.
              Rebuilt K encode context s x (cs ++ (policy_or_command digests ∷ []))
                (flatten K context s.hash_alg (or_of es)))
            pair.1
            (close_or K encode context s u v cs digests es hashed
              (branch_commands es [] s u cs digests each)))

    conjunct_commands :
        (es : Expressions) (s t : TpmPolicySession) (commands : List TpmCommand)
        → compile_walk_and K encode context es s ≡ ok (commands, t)
        → Rebuilt K encode context s t commands (flatten_all K context s.hash_alg es)
    conjunct_commands nil s t commands w =
        let pair = ok-pair w in
        record {
          same = record {
            hash_eq = ap (λ (x : TpmPolicySession). x.hash_alg) (sym pair.1);
            size_eq = ap (λ (x : TpmPolicySession). x.digest_size) (sym pair.1);
          };
          conjuncts = [];
          flat_eq = refl;
          reads = λ top rest.
              ap (λ cs. read_commands cs (top ∷ rest)) (sym pair.0)
              ∙ ap (λ x. ok (x ∷ rest)) (sym (append-nil top));
        }
    conjunct_commands (cons e es) s t commands w =
        let tail : List TpmCommand
            → List TpmCommand × TpmPolicySession
            → Result TpmPolicyError (List TpmCommand × TpmPolicySession) =
          λ first (rest, u). ok (first ++ rest, u) in
        let (head, first, next) =
          >>=-ok (compile_walk K encode context e s)
            (λ (cs, u). compile_walk_and K encode context es u >>= tail cs) w in
        let (cs, u) = head in
        let (others, second, done) =
          >>=-ok (compile_walk_and K encode context es u) (tail cs) next in
        let (ds, v) = others in
        let pair = ok-pair done in
        let a : Rebuilt K encode context s u cs (flatten K context s.hash_alg e) =
          walk_commands e s u cs first in
        subst (λ c. Rebuilt K encode context s t c (flatten_all K context s.hash_alg (cons e es)))
          pair.0
          (subst
            (λ x.
              Rebuilt K encode context s x (cs ++ ds)
                (flatten_all K context s.hash_alg (cons e es)))
            pair.1
            (join K encode context s u v cs ds e es a.same.hash_eq a
              (conjunct_commands es u v ds second)))

    branch_commands :
        (es : Expressions) (before : List Digest) (s t : TpmPolicySession)
        (commands : List TpmCommand) (digests : List Digest)
        → walk_or es before s ≡ ok (commands, digests, t)
        → RebuiltEach K encode context s t commands
            (length before)
            (length digests)
            (flatten_each K context s.hash_alg es)
    branch_commands nil before s t commands digests w =
        let (no_commands, rest) = ok-triple [] commands before digests s t w in
        record {
          same = record {
            hash_eq = ap (λ (x : TpmPolicySession). x.hash_alg) (sym rest.1);
            size_eq = ap (λ (x : TpmPolicySession). x.digest_size) (sym rest.1);
          };
          branches = [];
          flat_eq = refl;
          count = omega (arith, ap (length {A = Digest}) rest.0);
          reads = λ stack some_branch. ap (λ cs. read_commands cs stack) (sym no_commands);
        }
    branch_commands (cons e es) before s t commands digests w =
        let Step : Type 0 =
          Result TpmPolicyError (List TpmCommand × List Digest × TpmPolicySession) in
        let close : List TpmCommand → List TpmCommand × List Digest × TpmPolicySession → Step =
          λ first (rest, all, u). ok ((policy_restart_command ∷ []) ++ (first ++ rest), all, u) in
        let check : Result TpmPolicyError (Unit {0}) =
          reject_if (not (ltb (length before) max_branches)) too_many_branches in
        let go : List TpmCommand → TpmPolicySession → Step =
          λ first u. walk_or es (before ++ (u.digest ∷ [])) u >>= close first in
        let (r, fresh, next) =
          >>=-ok (policy_restart K s)
            (λ r. compile_walk K encode context e r >>= λ (first, u). check >> go first u) w in
        let (head, first, next2) =
          >>=-ok (compile_walk K encode context e r) (λ (first, u). check >> go first u) next in
        let (cs, u) = head in
        let (_, _, next3) = >>=-ok check (λ _. go cs u) next2 in
        let (others, second, done) =
          >>=-ok (walk_or es (before ++ (u.digest ∷ [])) u) (close cs) next3 in
        let (ds, all, v) = others in
        let restarted = policy_restart-SameAlgorithm K s r fresh in
        let a : Rebuilt K encode context r u cs (flatten K context r.hash_alg e) =
          walk_commands e r u cs first in
        let b : RebuiltEach K encode context u v ds (length (before ++ (u.digest ∷ [])))
            (length all) (flatten_each K context u.hash_alg es) =
          branch_commands es (before ++ (u.digest ∷ [])) u v ds all second in
        let p =
          ok-triple ((policy_restart_command ∷ []) ++ (cs ++ ds)) commands all digests v t done in
        let a' : Rebuilt K encode context r u cs (flatten K context s.hash_alg e) =
          subst (λ h. Rebuilt K encode context r u cs (flatten K context h e)) restarted.hash_eq
            a in
        let b' : RebuiltEach K encode context u v ds (length before + 1) (length all)
            (flatten_each K context s.hash_alg es) =
          subst
            (λ h.
              RebuiltEach K encode context u v ds (length before + 1) (length all)
                (flatten_each K context h es))
            (a.same.hash_eq ∙ restarted.hash_eq)
            (subst
              (λ n.
                RebuiltEach K encode context u v ds n (length all)
                  (flatten_each K context u.hash_alg es))
              (length-append before (u.digest ∷ [])) b) in
        let c =
          join_each K encode context s r u v cs ds (length before) (length all) e es restarted a'
            b' in
        let goal = flatten_each K context s.hash_alg (cons e es) in
        subst (λ x. RebuiltEach K encode context s t x (length before) (length digests) goal) p.0
          (subst
            (λ x.
              RebuiltEach K encode context s t ((policy_restart_command ∷ []) ++ (cs ++ ds))
                (length before) (length x) goal)
            p.1.0
            (subst
              (λ x.
                RebuiltEach K encode context s x ((policy_restart_command ∷ []) ++ (cs ++ ds))
                  (length before) (length all) goal)
              p.1.1 c))

  -- When `compile` succeeds, `from_commands` reads its commands back as the conjunction of what is left
  -- of the expression: its conjuncts, where a conjunction inside a conjunction is spliced into it, each
  -- PCR digest that is missing is the one computed from the context, and an empty reference is none.
  pub from_commands-compile :
      (e : TpmPolicyExpression) (alg : TpmAlgId) (hash_alg : TpmHash) (commands : List TpmCommand)
      (digest : Digest)
      → hash_try_from alg ≡ ok hash_alg
      → compile K encode context e alg ≡ ok (commands, digest)
      → (conjuncts : List TpmPolicyExpression) × (flatten K context hash_alg e ≡ ok conjuncts)
        × (from_commands commands ≡ ok (build_and_branch conjuncts))
  unfolding compile from_commands new_session
  from_commands-compile e alg hash_alg commands digest known w =
      let (s, started, next) =
        >>=-ok (new_session K alg)
          (λ s. compile_walk K encode context e s >>= λ (cs, t). ok (cs, t.digest)) w in
      let (walked, done, last) =
        >>=-ok (compile_walk K encode context e s) (λ (cs, t). ok (cs, t.digest)) next in
      let (cs, t) = walked in
      let r : Rebuilt K encode context s t cs (flatten K context s.hash_alg e) =
        walk_commands e s t cs done in
      let same = new_session-hash K alg hash_alg s known started in
      let pair = ok-pair last in
      (
        r.conjuncts,
        ap (λ h. flatten K context h e) (sym same) ∙ r.flat_eq,
        ap from_commands (sym pair.0) ∙ ap (λ x. x >>= λ stack. finish stack) (r.reads [] []),
      )
