-- ===== src/PolicyLanguage/Session.antt =====
-- crates/policy-language/src/lib.rs: `TpmPolicySession`, which computes the digest of a policy session
-- in software. A digest is the list of its bytes.
pub mod Laws
use tpm2_library.Common.{ℕ, List, [], ◌∷◌, ◌++◌, Result, ok, err, ◌>>=◌, map_err, replicate}
use tpm2_library.Protocol.Error.{TpmResult}
use tpm2_library.Protocol.Buffer
use tpm2_library.Protocol.Integer.{to_be_bytes}
use tpm2_library.Protocol.Constants.Cc
use tpm2_library.Protocol.Constants.AlgId.{TpmAlgId}
use tpm2_library.PolicyLanguage.Hash.{TpmHash, Crypto, hash_try_from}
use tpm2_library.PolicyLanguage.Error.{TpmPolicyError, crypto, marshal_failed}

abbrev pub Digest : Type 0
Digest = List ℕ

-- `Tpm2bDigest::try_from`, of at most 64 bytes
abbrev pub to_digest : List ℕ → Result TpmPolicyError Digest
to_digest bytes = do
  buffer ← map_err marshal_failed (Buffer.try_from 64 bytes)
  ok (Buffer.deref 64 buffer)

pub record TpmPolicySession : Type 0 where
  pub digest : Digest
  pub hash_alg : TpmHash
  pub digest_size : ℕ

-- `(cc as u32).to_be_bytes()`
abbrev pub cc_bytes : Cc.TpmCc → List ℕ
cc_bytes cc = to_be_bytes 4 (Cc.discriminant cc)

unfoldable pub concat : List (List ℕ) → List ℕ
concat [] = []
concat (x ∷ xs) = x ++ concat xs

module _ (K : Crypto) where
  abbrev pub hash : TpmHash → List (List ℕ) → Result TpmPolicyError Digest
  hash alg chunks = do bytes ← map_err crypto (K.digest alg chunks); to_digest bytes

  unfoldable pub new_session : TpmAlgId → Result TpmPolicyError TpmPolicySession
  unfolding hash_try_from
  new_session alg = do
    hash_alg ← map_err crypto (hash_try_from alg)
    digest ← to_digest (replicate (K.size hash_alg) 0)
    ok (record { digest = digest; hash_alg = hash_alg; digest_size = K.size hash_alg })

  -- `pcrs` is the encoding of the selections.
  unfoldable pub policy_pcr :
      TpmResult (List ℕ) → Digest → TpmPolicySession → Result TpmPolicyError TpmPolicySession
  policy_pcr pcrs pcr_digest s = do
    pcrs_bytes ← map_err marshal_failed pcrs
    digest ←
        hash s.hash_alg (s.digest ∷ (cc_bytes Cc.policy_pcr ∷ (pcrs_bytes ∷ (pcr_digest ∷ []))))
    ok (record s { digest = digest })

  unfoldable pub policy_restart : TpmPolicySession → Result TpmPolicyError TpmPolicySession
  policy_restart s = do
    zero_digest ← to_digest (replicate s.digest_size 0)
    ok (record s { digest = zero_digest })

  unfoldable pub policy_or : List Digest → TpmPolicySession → Result TpmPolicyError TpmPolicySession
  unfolding concat
  policy_or branches s = do
    zero_digest ← to_digest (replicate s.digest_size 0)
    digest ← hash s.hash_alg (zero_digest ∷ (cc_bytes Cc.policy_or ∷ (concat branches ∷ [])))
    ok (record s { digest = digest })

  unfoldable pub policy_secret :
      List ℕ → Digest → TpmPolicySession → Result TpmPolicyError TpmPolicySession
  policy_secret name policy_ref s = do
    first ← hash s.hash_alg (s.digest ∷ (cc_bytes Cc.policy_secret ∷ (name ∷ [])))
    digest ← hash s.hash_alg (first ∷ (policy_ref ∷ []))
    ok (record s { digest = digest })
