-- ===== src/PolicyLanguage/Hash.antt =====
-- crates/crypto/src/hash.rs: the hash algorithms by name. The digests themselves are computed by
-- OpenSSL, and are operations of a record.
use tpm2_library.Common.{ℕ, List, Result, ok, err}
use tpm2_library.Protocol.Constants.AlgId
use tpm2_library.Protocol.Constants.AlgId.{TpmAlgId}

pub data TpmHash : Type 0 where
  sha1 sha256 sha384 sha512 sm3_256 sha3_256 sha3_384 sha3_512 shake128 shake256 : TpmHash

-- Of the errors of crates/crypto, the one for an algorithm that is no hash stands by itself.
pub data TpmCryptoError : Type 0 where
  invalid_hash : TpmCryptoError
  library : ℕ → TpmCryptoError

unfoldable pub hash_try_from : TpmAlgId → Result TpmCryptoError TpmHash
hash_try_from AlgId.sha1 = ok sha1
hash_try_from AlgId.sha256 = ok sha256
hash_try_from AlgId.sha384 = ok sha384
hash_try_from AlgId.sha512 = ok sha512
hash_try_from AlgId.sm3_256 = ok sm3_256
hash_try_from AlgId.sha3_256 = ok sha3_256
hash_try_from AlgId.sha3_384 = ok sha3_384
hash_try_from AlgId.sha3_512 = ok sha3_512
hash_try_from AlgId.shake128 = ok shake128
hash_try_from AlgId.shake256 = ok shake256
hash_try_from _ = err invalid_hash

pub record Crypto : Type 0 where
  pub size : TpmHash → ℕ
  pub digest : TpmHash → List (List ℕ) → Result TpmCryptoError (List ℕ)
