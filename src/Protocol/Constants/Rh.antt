-- ===== src/Protocol/Constants/Rh.antt =====
-- crates/protocol/src/data/enum/mod.rs: `TpmRh`, the variants and discriminants that `tpm_enum!` is
-- given there, over 4 bytes.
use tpm2_library.Common.{ℕ, List, [], ◌∷◌, some, ok, ◌≡◌, ◌↔◌, arith}
use tpm2_library.Protocol.Enum.{find, try_from}
use tpm2_library.Protocol.Enum.Laws.{try_from_iff}

pub data TpmRh : Type 0 where
  srk owner revoke transport operator admin ek null unassigned pw lockout endorsement : TpmRh
  platform platform_nv fw_owner fw_endorsement fw_platform fw_null svn_owner_base : TpmRh
  svn_endorsement_base svn_platform_base svn_null_base : TpmRh

unfoldable pub discriminant : TpmRh → ℕ
discriminant srk = 0x40000000
discriminant owner = 0x40000001
discriminant revoke = 0x40000002
discriminant transport = 0x40000003
discriminant operator = 0x40000004
discriminant admin = 0x40000005
discriminant ek = 0x40000006
discriminant null = 0x40000007
discriminant unassigned = 0x40000008
discriminant pw = 0x40000009
discriminant lockout = 0x4000000a
discriminant endorsement = 0x4000000b
discriminant platform = 0x4000000c
discriminant platform_nv = 0x4000000d
discriminant fw_owner = 0x40000140
discriminant fw_endorsement = 0x40000141
discriminant fw_platform = 0x40000142
discriminant fw_null = 0x40000143
discriminant svn_owner_base = 0x40010000
discriminant svn_endorsement_base = 0x40020000
discriminant svn_platform_base = 0x40030000
discriminant svn_null_base = 0x40040000

-- In the order of the source.
abbrev pub variants : List TpmRh
variants =
    srk ∷ owner ∷ revoke ∷ transport ∷ operator ∷ admin ∷ ek ∷ null ∷ unassigned ∷ pw ∷ lockout
    ∷ endorsement ∷ platform ∷ platform_nv ∷ fw_owner ∷ fw_endorsement ∷ fw_platform ∷ fw_null
    ∷ svn_owner_base ∷ svn_endorsement_base ∷ svn_platform_base ∷ svn_null_base ∷ []

pub find-discriminant : (v : TpmRh) → find 4 discriminant variants (discriminant v) ≡ some v
unfolding find discriminant
find-discriminant v = ground arith

-- `TpmRh::try_from` accepts exactly the discriminants, and returns the variant that has them.
pub TpmRh-try_from_iff :
    (raw : ℕ) (v : TpmRh) → (try_from 4 discriminant variants raw ≡ ok v) ↔ (discriminant v ≡ raw)
TpmRh-try_from_iff = try_from_iff 4 discriminant variants find-discriminant
