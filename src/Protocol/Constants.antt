-- ===== src/Protocol/Constants.antt =====
-- crates/protocol/src/data/enum/mod.rs: constants of the TPM 2.0 specification, one enumeration to a
-- module.
pub mod Cc
pub mod St
pub mod AlgId
pub mod Rh
pub mod Ht
