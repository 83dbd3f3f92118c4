-- ===== src/PolicyLanguage/Compile/Restart.antt =====
-- crates/policy-language/src/expression.rs: each branch of a disjunction starts the session afresh.
use tpm2_library.Common.{
  ℕ, List, [], ◌++◌, Result, ok, ◌>>=◌, ◌≡◌, refl, sym, ap, ◌∙◌, >>=-ok, ok-pair,
}
use tpm2_library.Protocol.Error.{TpmResult}
use tpm2_library.Protocol.Constants.AlgId.{TpmAlgId}
use tpm2_library.PolicyLanguage.Hash.{Crypto}
use tpm2_library.PolicyLanguage.Error.{TpmPolicyError}
use tpm2_library.PolicyLanguage.Session.{
  Digest, TpmPolicySession, policy_restart, policy_or, new_session,
}
use tpm2_library.PolicyLanguage.Session.Laws.{SameAlgorithm}
use tpm2_library.PolicyLanguage.Expression.{
  Selection, TpmPolicyContext, TpmPolicyExpression, and_of, or_of, Expressions, nil, cons,
  TpmCommand,
}
use tpm2_library.PolicyLanguage.Compile.{compile_walk, compile_walk_and, compile}
use tpm2_library.PolicyLanguage.Commands.Inverse.{walk_commands}

module _ (K : Crypto) (encode : List Selection → TpmResult (List ℕ))
    (context : TpmPolicyContext) where
  -- A disjunction does not look at the digest that the session has before it.
  or_fresh :
      (es : Expressions) (s : TpmPolicySession) (d : Digest)
      → compile_walk K encode context (or_of es) (record s { digest = d })
        ≡ compile_walk K encode context (or_of es) s
  unfolding compile_walk policy_restart policy_or
  or_fresh nil s d = refl
  or_fresh (cons e es) s d = refl

  same_session :
      (es : Expressions) (s t : TpmPolicySession)
      → SameAlgorithm s t
      → compile_walk K encode context (or_of es) t ≡ compile_walk K encode context (or_of es) s
  same_session es s t same =
      ap
        (λ h.
          compile_walk K encode context (or_of es)
            (record { digest = t.digest; hash_alg = h; digest_size = t.digest_size }))
        same.hash_eq
      ∙ ap
          (λ n.
            compile_walk K encode context (or_of es)
              (record { digest = t.digest; hash_alg = s.hash_alg; digest_size = n }))
          same.size_eq
      ∙ or_fresh es s t.digest

  -- A conjunct in front of a disjunction does not enter the digest: when `p and (a or ...)` compiles,
  -- the disjunction alone compiles to the same digest.
  pub or_drops_conjunct :
      (p : TpmPolicyExpression) (es : Expressions) (alg : TpmAlgId) (commands : List TpmCommand)
      (digest : Digest)
      → compile K encode context (and_of (cons p (cons (or_of es) nil))) alg ≡ ok (commands, digest)
      → (alone : List TpmCommand) × (compile K encode context (or_of es) alg ≡ ok (alone, digest))
  unfolding compile compile_walk
  or_drops_conjunct p es alg commands digest w =
      let whole = and_of (cons p (cons (or_of es) nil)) in
      let out : List TpmCommand × TpmPolicySession
          → Result TpmPolicyError (List TpmCommand × Digest) =
        λ (cs, t). ok (cs, t.digest) in
      let after : List TpmCommand
          → List TpmCommand × TpmPolicySession
          → Result TpmPolicyError (List TpmCommand × TpmPolicySession) =
        λ first (rest, t). ok (first ++ rest, t) in
      let (s, started, n1) =
        >>=-ok (new_session K alg) (λ s. compile_walk K encode context whole s >>= out) w in
      let (walked, done, last) = >>=-ok (compile_walk K encode context whole s) out n1 in
      let (h1, first, n2) =
        >>=-ok (compile_walk K encode context p s)
          (λ (c, s1). compile_walk_and K encode context (cons (or_of es) nil) s1 >>= after c)
          done in
      let (c1, s1) = h1 in
      let (h2, second, n3) =
        >>=-ok (compile_walk_and K encode context (cons (or_of es) nil) s1) (after c1) n2 in
      let (h3, ored, n4) =
        >>=-ok (compile_walk K encode context (or_of es) s1) (λ (c, u). ok (c ++ [], u)) second in
      let same = (walk_commands K encode context p s s1 c1 first).same in
      let e4 : h3.1 ≡ h2.1 = (ok-pair n4).1 in
      let e3 : h2.1 ≡ walked.1 = (ok-pair n3).1 in
      let e2 : walked.1.digest ≡ digest = (ok-pair last).1 in
      (
        h3.0,
        ap (λ r. r >>= λ s. compile_walk K encode context (or_of es) s >>= out) started
            ∙ ap (λ r. r >>= out) (sym (same_session es s s1 same) ∙ ored)
            ∙ ap (λ d. ok (h3.0, d)) (ap (λ (x : TpmPolicySession). x.digest) (e4 ∙ e3) ∙ e2),
      )
