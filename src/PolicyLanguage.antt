-- ===== src/PolicyLanguage.antt =====
-- crates/policy-language: policy expressions, their compilation to TPM commands, and back.
pub mod Error
pub mod Hash
pub mod Session
pub mod Expression
pub mod Compile
pub mod Commands
mod Tests
