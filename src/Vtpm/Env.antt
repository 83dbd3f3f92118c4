-- ===== src/Vtpm/Env.antt =====
-- What the cache of crates/vtpm/src/lib.rs takes from other crates: the public area of an object with
-- its encoding, names, contexts, policy commands, and the directory.
use tpm2_library.Common.{ℕ, List, Option, Result, replicate, Bool, ok, err}
use tpm2_library.Protocol.Error.{TpmResult}
use tpm2_library.Protocol.Writer.{TpmWriter, new}
use tpm2_library.Protocol.Constants.Cc.{TpmCc}
use tpm2_library.Protocol.Codec.{Codec}
use tpm2_library.Vtpm.Error.{VtpmError}
use tpm2_library.Vtpm.Disk.{Disk}

-- `P` is `TpmtPublic`, `N` is `Tpm2bName`, `C` is `TpmsContext`, `Y` is the boxed
-- `VtpmPolicyCommand`, `F` is the directory.
pub record Env (P N C Y F : Type 0) : Type 0 where
  pub public_eq : Discrete P
  pub name_eq : Discrete N
  pub public_codec : Codec P
  pub context_codec : Codec C
  -- `public.object_type == TpmAlgId::Null`
  pub is_null : P → Bool
  -- `tpm_make_name`
  pub make_name : P → Option N
  -- the context that `save_persistent` builds
  pub empty_context : C
  pub policy_cc : Y → TpmCc
  pub policy_body : Y → List ℕ
  pub policy_len : Y → ℕ
  -- `vtpm_policy_command_from_parts`
  pub from_parts : TpmCc → List ℕ → Result VtpmError Y
  pub disk : Disk F

-- `let mut buf = vec![0u8; x.len()]; x.marshal(&mut TpmWriter::new(&mut buf))?; buf`
module _ {A : Type 0} (c : Codec A) where
  written : TpmResult (Unit {0}) × TpmWriter → TpmResult (List ℕ)
  written (ok done, w) = ok w.buffer
  written (err e, w) = err e

  unfoldable pub to_vec : A → TpmResult (List ℕ)
  unfolding written new
  to_vec x = written (c.marshal x (new (replicate (c.len x) 0)))
