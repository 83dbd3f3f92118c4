-- ===== src/Protocol/Rc/Lookup.antt =====
-- crates/protocol/src/data/enum/rc.rs: the search for the variant of a discriminant.
use tpm2_library.Common.{ℕ, some, ok, ◌≡◌, ◌↔◌, arith}
use tpm2_library.Protocol.Enum.{find, try_from}
use tpm2_library.Protocol.Enum.Laws.{try_from_iff}
use tpm2_library.Protocol.Rc.Base.{TpmRcBase, discriminant, variants}

find-discriminant : (b : TpmRcBase) → find 4 discriminant variants (discriminant b) ≡ some b
unfolding find discriminant
find-discriminant b = ground arith

-- `TpmRcBase::try_from` accepts exactly the discriminants, and returns the variant that has them.
pub TpmRcBase-try_from_iff :
    (raw : ℕ) (b : TpmRcBase)
    → (try_from 4 discriminant variants raw ≡ ok b) ↔ (discriminant b ≡ raw)
TpmRcBase-try_from_iff = try_from_iff 4 discriminant variants find-discriminant
