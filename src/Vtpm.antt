-- ===== src/Vtpm.antt =====
-- crates/vtpm: the cache of virtual TPM objects.
pub mod Error
pub mod Disk
pub mod Env
pub mod Cache
pub mod PolicyList
pub mod Record
mod Tests
