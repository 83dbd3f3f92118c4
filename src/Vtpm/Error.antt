-- ===== src/Vtpm/Error.antt =====
-- crates/vtpm/src/lib.rs: `VtpmError`. An `io::Error` is kept as far as the code looks at it:
-- whether its kind is `NotFound`.
use tpm2_library.Common.{ℕ}
use tpm2_library.Protocol.Error.{TpmError}

pub data IoError : Type 0 where
  not_found : IoError
  other : ℕ → IoError

pub data VtpmError : Type 0 where
  handle_not_found : ℕ → VtpmError
  invalid_handle_type : ℕ → VtpmError
  no_handles : VtpmError
  invalid_policy_cc : ℕ → VtpmError
  invalid_policy : VtpmError
  io : IoError → VtpmError
  marshal_failed : TpmError → VtpmError
  operation_failed : VtpmError
  parent_not_found : VtpmError
  stale_handle : VtpmError
  unmarshal_failed : TpmError → VtpmError
  policy_end : VtpmError
  record_too_large : ℕ → VtpmError
  too_many_policies : ℕ → VtpmError
