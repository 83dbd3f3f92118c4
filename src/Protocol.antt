-- ===== src/Protocol.antt =====
-- crates/protocol: the TPM 2.0 wire protocol.
pub mod Error
pub mod Writer
pub mod WireBytes
pub mod Integer
pub mod Codec
pub mod Slots
pub mod Buffer
pub mod Lists
pub mod Enum
pub mod Rc
pub mod Constants
pub mod Frame
pub mod Tests
