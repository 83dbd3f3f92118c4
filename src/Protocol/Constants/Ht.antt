-- ===== src/Protocol/Constants/Ht.antt =====
-- crates/protocol/src/data/enum/mod.rs: `TpmHt`, the variants and discriminants that `tpm_enum!` is
-- given there, over 1 byte.
use tpm2_library.Common.{ℕ, List, [], ◌∷◌, some, ok, ◌≡◌, ◌↔◌, arith}
use tpm2_library.Protocol.Enum.{find, try_from}
use tpm2_library.Protocol.Enum.Laws.{try_from_iff}

pub data TpmHt : Type 0 where
  pcr nv_index hmac_session policy_session external_nv permanent_nv permanent : TpmHt
  transient persistent ac : TpmHt

unfoldable pub discriminant : TpmHt → ℕ
discriminant pcr = 0x0
discriminant nv_index = 0x1
discriminant hmac_session = 0x2
discriminant policy_session = 0x3
discriminant external_nv = 0x11
discriminant permanent_nv = 0x12
discriminant permanent = 0x40
discriminant transient = 0x80
discriminant persistent = 0x81
discriminant ac = 0x90

-- In the order of the source.
abbrev pub variants : List TpmHt
variants =
    pcr ∷ nv_index ∷ hmac_session ∷ policy_session ∷ external_nv ∷ permanent_nv ∷ permanent
    ∷ transient ∷ persistent ∷ ac ∷ []

pub find-discriminant : (v : TpmHt) → find 1 discriminant variants (discriminant v) ≡ some v
unfolding find discriminant
find-discriminant v = ground arith

-- `TpmHt::try_from` accepts exactly the discriminants, and returns the variant that has them.
pub TpmHt-try_from_iff :
    (raw : ℕ) (v : TpmHt) → (try_from 1 discriminant variants raw ≡ ok v) ↔ (discriminant v ≡ raw)
TpmHt-try_from_iff = try_from_iff 1 discriminant variants find-discriminant
