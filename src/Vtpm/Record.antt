-- ===== src/Vtpm/Record.antt =====
-- crates/vtpm/src/lib.rs: the record of a key in its cache file, `VtpmKey::save` and `VtpmKey::load`.
pub mod Reload
use tpm2_library.Common.{
  ℕ, zero, ◌+◌, ◌-◌, List, [], ◌∷◌, Result, ok, err, ◌>>=◌, ◌>>◌, length, replicate, ltb, ◌==◌, not,
  reject_if, map_err,
}
use tpm2_library.Protocol.Error.{TpmError, trailing_data}
use tpm2_library.Protocol.Writer
use tpm2_library.Protocol.Writer.{TpmWriter, Marshal, as_bytes}
use tpm2_library.Protocol.Integer
use tpm2_library.Vtpm.Error.{VtpmError, io, stale_handle, unmarshal_failed, record_too_large}
use tpm2_library.Vtpm.Disk.{cache_file, write_atomic}
use tpm2_library.Vtpm.Env.{Env}
use tpm2_library.Vtpm.Cache.{VtpmKey, version}
use tpm2_library.Vtpm.PolicyList.{
  VtpmMarshal, lift, followed_by, vtpm_marshal_policy_list, vtpm_unmarshal_policy_list,
}

abbrev pub max_record_size : ℕ
max_record_size = 16384

module _ {P N C Y F : Type 0} (E : Env P N C Y F) where
  abbrev pub policies_len : List Y → ℕ
  policies_len [] = 0
  policies_len (y ∷ ys) = E.policy_len y + policies_len ys

  unfoldable pub serialized_len : VtpmKey P C Y → ℕ
  serialized_len k =
      4
      + (4
          + (E.public_codec.len k.public
              + (E.public_codec.len k.parent
                  + (E.context_codec.len k.context + (4 + policies_len k.policy)))))

  -- The part of the record in front of the policy commands.
  abbrev pub marshal_fixed : VtpmKey P C Y → Marshal
  marshal_fixed k = Writer.◌>>◌ (Integer.marshal 4 (Integer.new 4 k.key_version)) (
      Writer.◌>>◌ (Integer.marshal 4 (Integer.new 4 k.handle)) (
        Writer.◌>>◌ (E.public_codec.marshal k.public)
          (Writer.◌>>◌ (E.public_codec.marshal k.parent) (E.context_codec.marshal k.context))))

  unfoldable pub marshal_key : VtpmKey P C Y → VtpmMarshal
  unfolding vtpm_marshal_policy_list
  marshal_key k w = followed_by (vtpm_marshal_policy_list E k.policy) (lift (marshal_fixed k w))

  unfoldable pub written :
      ℕ → F → Result VtpmError (Unit {0}) × TpmWriter → Result VtpmError (Unit {0}) × F
  written h f (ok done, w) = write_atomic E.disk h (as_bytes w) f
  written h f (err e, w) = (err e, f)

  -- `context.save(&path)` for the file of the handle `h`
  unfoldable pub save : ℕ → VtpmKey P C Y → F → Result VtpmError (Unit {0}) × F
  unfolding written marshal_key serialized_len
  save h k f = written h f (marshal_key k (Writer.new (replicate (serialized_len k) 0)))

  -- The bytes of a cache file, as `load` reads them.
  unfoldable pub parse_key : ℕ → List ℕ → Result VtpmError (VtpmKey P C Y)
  unfolding vtpm_unmarshal_policy_list
  parse_key expected_handle buffer = do
    (key_version, tail) ← map_err (λ e. stale_handle) (Integer.unmarshal 4 buffer)
    reject_if (not (Integer.value 4 key_version == version)) stale_handle
    (handle, tail) ← map_err unmarshal_failed (Integer.unmarshal 4 tail)
    reject_if (not (Integer.value 4 handle == expected_handle)) stale_handle
    (public, tail) ← map_err unmarshal_failed (E.public_codec.unmarshal tail)
    (parent, tail) ← map_err unmarshal_failed (E.public_codec.unmarshal tail)
    (context, tail) ← map_err unmarshal_failed (E.context_codec.unmarshal tail)
    (policy, tail) ← vtpm_unmarshal_policy_list E tail
    reject_if (not (length tail == 0))
        (unmarshal_failed (trailing_data (length buffer - length tail) (length tail)))
    ok (record {
      key_version = Integer.value 4 key_version;
      handle = Integer.value 4 handle;
      public = public;
      parent = parent;
      context = context;
      policy = policy;
    })

  unfoldable pub load : ℕ → F → Result VtpmError (VtpmKey P C Y)
  unfolding parse_key
  load h f = do
    size ← map_err io (E.disk.file_len (cache_file h) f)
    reject_if (ltb max_record_size size) (record_too_large size)
    buffer ← map_err io (E.disk.read (cache_file h) f)
    parse_key h buffer
