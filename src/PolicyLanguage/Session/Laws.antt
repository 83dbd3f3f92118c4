-- ===== src/PolicyLanguage/Session/Laws.antt =====
-- crates/policy-language/src/lib.rs: the methods of `TpmPolicySession` replace the digest, and nothing
-- else.
use tpm2_library.Common.{
  ℕ, List, [], ◌∷◌, Result, ok, ◌>>=◌, ◌≡◌, arith, >>=-ok, replicate, map_err, map_err-ok,
}
use tpm2_library.Protocol.Error.{TpmResult}
use tpm2_library.Protocol.Constants.Cc
use tpm2_library.Protocol.Constants.AlgId.{TpmAlgId}
use tpm2_library.PolicyLanguage.Hash.{TpmHash, Crypto, hash_try_from}
use tpm2_library.PolicyLanguage.Error.{TpmPolicyError, marshal_failed, crypto}
use tpm2_library.PolicyLanguage.Session.{
  Digest, TpmPolicySession, hash, cc_bytes, to_digest, concat, policy_pcr, policy_restart,
  policy_or, policy_secret, new_session,
}

pub record SameAlgorithm (s t : TpmPolicySession) : Type 0 where
  pub hash_eq : t.hash_alg ≡ s.hash_alg
  pub size_eq : t.digest_size ≡ s.digest_size

abbrev with_digest : TpmPolicySession → Digest → Result TpmPolicyError TpmPolicySession
with_digest s digest = ok (record s { digest = digest })

-- A chain that ends by replacing the digest.
replaced :
    (s t : TpmPolicySession) (r : Result TpmPolicyError Digest)
    → (r >>= with_digest s) ≡ ok t
    → SameAlgorithm s t
replaced s t r e =
    let (digest, _, last) = >>=-ok r (with_digest s) e in
    record { hash_eq = cc (last); size_eq = cc (last) }

module _ (K : Crypto) where
  pub policy_pcr-SameAlgorithm :
      (pcrs : TpmResult (List ℕ)) (digest : Digest) (s t : TpmPolicySession)
      → policy_pcr K pcrs digest s ≡ ok t
      → SameAlgorithm s t
  unfolding policy_pcr
  policy_pcr-SameAlgorithm pcrs digest s t e =
      let rest : List ℕ → Result TpmPolicyError Digest = λ bytes.
        hash K s.hash_alg (s.digest ∷ (cc_bytes Cc.policy_pcr ∷ (bytes ∷ (digest ∷ [])))) in
      let (bytes, _, next) =
        >>=-ok (map_err marshal_failed pcrs) (λ bytes. rest bytes >>= with_digest s) e in
      replaced s t (rest bytes) next

  pub policy_restart-SameAlgorithm :
      (s t : TpmPolicySession) → policy_restart K s ≡ ok t → SameAlgorithm s t
  unfolding policy_restart
  policy_restart-SameAlgorithm s t e = replaced s t (to_digest (replicate s.digest_size 0)) e

  pub policy_or-SameAlgorithm :
      (digests : List Digest) (s t : TpmPolicySession)
      → policy_or K digests s ≡ ok t
      → SameAlgorithm s t
  unfolding policy_or
  policy_or-SameAlgorithm digests s t e =
      let rest : Digest → Result TpmPolicyError Digest =
        λ zero. hash K s.hash_alg (zero ∷ (cc_bytes Cc.policy_or ∷ (concat digests ∷ []))) in
      let (zero, _, next) =
        >>=-ok (to_digest (replicate s.digest_size 0)) (λ zero. rest zero >>= with_digest s) e in
      replaced s t (rest zero) next

  pub policy_secret-SameAlgorithm :
      (name : List ℕ) (policy_ref : Digest) (s t : TpmPolicySession)
      → policy_secret K name policy_ref s ≡ ok t
      → SameAlgorithm s t
  unfolding policy_secret
  policy_secret-SameAlgorithm name policy_ref s t e =
      let rest : Digest → Result TpmPolicyError Digest =
        λ first. hash K s.hash_alg (first ∷ (policy_ref ∷ [])) in
      let (first, _, next) =
        >>=-ok (hash K s.hash_alg (s.digest ∷ (cc_bytes Cc.policy_secret ∷ (name ∷ []))))
          (λ first. rest first >>= with_digest s) e in
      replaced s t (rest first) next

  pub new_session-hash :
      (alg : TpmAlgId) (hash_alg : TpmHash) (s : TpmPolicySession)
      → hash_try_from alg ≡ ok hash_alg
      → new_session K alg ≡ ok s
      → s.hash_alg ≡ hash_alg
  unfolding new_session
  new_session-hash alg hash_alg s known e =
      let build : TpmHash → Digest → Result TpmPolicyError TpmPolicySession =
        λ h d. ok (record { digest = d; hash_alg = h; digest_size = K.size h }) in
      let (h, found, next) =
        >>=-ok (map_err crypto (hash_try_from alg))
          (λ h. to_digest (replicate (K.size h) 0) >>= build h) e in
      let (d, _, last) = >>=-ok (to_digest (replicate (K.size h) 0)) (build h) next in
      let same : h ≡ hash_alg =
        ground (arith, known, map_err-ok crypto (hash_try_from alg) found) in
      cc (last, same)
