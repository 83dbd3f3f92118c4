-- ===== src/Protocol/Constants/AlgId.antt =====
-- crates/protocol/src/data/enum/mod.rs: `TpmAlgId`, the variants and discriminants that `tpm_enum!` is
-- given there, over 2 bytes.
use tpm2_library.Common.{ℕ, List, [], ◌∷◌, some, ok, ◌≡◌, ◌↔◌, arith}
use tpm2_library.Protocol.Enum.{find, try_from}
use tpm2_library.Protocol.Enum.Laws.{try_from_iff}

pub data TpmAlgId : Type 0 where
  alg_id_error rsa tdes sha1 hmac aes mgf1 keyed_hash xor sha256 sha384 sha512 null : TpmAlgId
  sm3_256 sm4 rsassa rsaes rsapss oaep ecdsa ecdh ecdaa sm2 ecschnorr ecmqv : TpmAlgId
  kdf1_sp800_56_a kdf2 kdf1_sp800_108 ecc sym_cipher camellia sha3_256 sha3_384 : TpmAlgId
  sha3_512 shake128 shake256 shake256_192 shake256_256 shake256_512 cmac ctr ofb cbc : TpmAlgId
  cfb ecb ccm gcm kw kwp eax eddsa eddsa_ph lms xmss keyedxof kmacxof128 kmacxof256 : TpmAlgId
  kmac128 kmac256 : TpmAlgId

unfoldable pub discriminant : TpmAlgId → ℕ
discriminant alg_id_error = 0x0
discriminant rsa = 0x1
discriminant tdes = 0x3
discriminant sha1 = 0x4
discriminant hmac = 0x5
discriminant aes = 0x6
discriminant mgf1 = 0x7
discriminant keyed_hash = 0x8
discriminant xor = 0xa
discriminant sha256 = 0xb
discriminant sha384 = 0xc
discriminant sha512 = 0xd
discriminant null = 0x10
discriminant sm3_256 = 0x12
discriminant sm4 = 0x13
discriminant rsassa = 0x14
discriminant rsaes = 0x15
discriminant rsapss = 0x16
discriminant oaep = 0x17
discriminant ecdsa = 0x18
discriminant ecdh = 0x19
discriminant ecdaa = 0x1a
discriminant sm2 = 0x1b
discriminant ecschnorr = 0x1c
discriminant ecmqv = 0x1d
discriminant kdf1_sp800_56_a = 0x20
discriminant kdf2 = 0x21
discriminant kdf1_sp800_108 = 0x22
discriminant ecc = 0x23
discriminant sym_cipher = 0x25
discriminant camellia = 0x26
discriminant sha3_256 = 0x27
discriminant sha3_384 = 0x28
discriminant sha3_512 = 0x29
discriminant shake128 = 0x2a
discriminant shake256 = 0x2b
discriminant shake256_192 = 0x2c
discriminant shake256_256 = 0x2d
discriminant shake256_512 = 0x2e
discriminant cmac = 0x3f
discriminant ctr = 0x40
discriminant ofb = 0x41
discriminant cbc = 0x42
discriminant cfb = 0x43
discriminant ecb = 0x44
discriminant ccm = 0x50
discriminant gcm = 0x51
discriminant kw = 0x52
discriminant kwp = 0x53
discriminant eax = 0x54
discriminant eddsa = 0x60
discriminant eddsa_ph = 0x61
discriminant lms = 0x70
discriminant xmss = 0x71
discriminant keyedxof = 0x80
discriminant kmacxof128 = 0x81
discriminant kmacxof256 = 0x82
discriminant kmac128 = 0x90
discriminant kmac256 = 0x91

-- In the order of the source.
abbrev pub variants : List TpmAlgId
variants =
    alg_id_error ∷ rsa ∷ tdes ∷ sha1 ∷ hmac ∷ aes ∷ mgf1 ∷ keyed_hash ∷ xor ∷ sha256 ∷ sha384
    ∷ sha512 ∷ null ∷ sm3_256 ∷ sm4 ∷ rsassa ∷ rsaes ∷ rsapss ∷ oaep ∷ ecdsa ∷ ecdh ∷ ecdaa ∷ sm2
    ∷ ecschnorr ∷ ecmqv ∷ kdf1_sp800_56_a ∷ kdf2 ∷ kdf1_sp800_108 ∷ ecc ∷ sym_cipher ∷ camellia
    ∷ sha3_256 ∷ sha3_384 ∷ sha3_512 ∷ shake128 ∷ shake256 ∷ shake256_192 ∷ shake256_256
    ∷ shake256_512 ∷ cmac ∷ ctr ∷ ofb ∷ cbc ∷ cfb ∷ ecb ∷ ccm ∷ gcm ∷ kw ∷ kwp ∷ eax ∷ eddsa
    ∷ eddsa_ph ∷ lms ∷ xmss ∷ keyedxof ∷ kmacxof128 ∷ kmacxof256 ∷ kmac128 ∷ kmac256 ∷ []

pub find-discriminant : (v : TpmAlgId) → find 2 discriminant variants (discriminant v) ≡ some v
unfolding find discriminant
find-discriminant v = ground arith

-- `TpmAlgId::try_from` accepts exactly the discriminants, and returns the variant that has them.
pub TpmAlgId-try_from_iff :
    (raw : ℕ) (v : TpmAlgId)
    → (try_from 2 discriminant variants raw ≡ ok v) ↔ (discriminant v ≡ raw)
TpmAlgId-try_from_iff = try_from_iff 2 discriminant variants find-discriminant
