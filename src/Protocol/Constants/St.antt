-- ===== src/Protocol/Constants/St.antt =====
-- crates/protocol/src/data/enum/mod.rs: `TpmSt`, the variants and discriminants that `tpm_enum!` is
-- given there, over 2 bytes.
use tpm2_library.Common.{ℕ, List, [], ◌∷◌, some, ok, ◌≡◌, ◌↔◌, arith}
use tpm2_library.Protocol.Enum.{find, try_from}
use tpm2_library.Protocol.Enum.Laws.{try_from_iff}

pub data TpmSt : Type 0 where
  rsp_command null no_sessions sessions attest_nv attest_command_audit : TpmSt
  attest_session_audit attest_certify attest_quote attest_time attest_creation : TpmSt
  attest_nv_digest creation verified auth_secret hash_check auth_signed : TpmSt

unfoldable pub discriminant : TpmSt → ℕ
discriminant rsp_command = 0xc4
discriminant null = 0x8000
discriminant no_sessions = 0x8001
discriminant sessions = 0x8002
discriminant attest_nv = 0x8014
discriminant attest_command_audit = 0x8015
discriminant attest_session_audit = 0x8016
discriminant attest_certify = 0x8017
discriminant attest_quote = 0x8018
discriminant attest_time = 0x8019
discriminant attest_creation = 0x801a
discriminant attest_nv_digest = 0x801c
discriminant creation = 0x8021
discriminant verified = 0x8022
discriminant auth_secret = 0x8023
discriminant hash_check = 0x8024
discriminant auth_signed = 0x8025

-- In the order of the source.
abbrev pub variants : List TpmSt
variants =
    rsp_command ∷ null ∷ no_sessions ∷ sessions ∷ attest_nv ∷ attest_command_audit
    ∷ attest_session_audit ∷ attest_certify ∷ attest_quote ∷ attest_time ∷ attest_creation
    ∷ attest_nv_digest ∷ creation ∷ verified ∷ auth_secret ∷ hash_check ∷ auth_signed ∷ []

pub find-discriminant : (v : TpmSt) → find 2 discriminant variants (discriminant v) ≡ some v
unfolding find discriminant
find-discriminant v = ground arith

-- `TpmSt::try_from` accepts exactly the discriminants, and returns the variant that has them.
pub TpmSt-try_from_iff :
    (raw : ℕ) (v : TpmSt) → (try_from 2 discriminant variants raw ≡ ok v) ↔ (discriminant v ≡ raw)
TpmSt-try_from_iff = try_from_iff 2 discriminant variants find-discriminant
