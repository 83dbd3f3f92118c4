-- ===== src/Vtpm/PolicyList.antt =====
-- crates/vtpm/src/policy.rs: the list of policy commands in a cache record.
pub mod Reload
use tpm2_library.Common.{
  ℕ, zero, suc, List, [], ◌∷◌, Option, none, some, Result, ok, err, ◌>>=◌, ◌>>◌, length, take, drop,
  ltb, reject_if, map_err,
}
use tpm2_library.Protocol.Error.{TpmResult}
use tpm2_library.Protocol.Writer.{TpmWriter, Marshal, write_bytes}
use tpm2_library.Protocol.Enum
use tpm2_library.Protocol.Integer
use tpm2_library.Protocol.Integer.{TpmInt}
use tpm2_library.Protocol.Constants.Cc
use tpm2_library.Vtpm.Error.{
  VtpmError, marshal_failed, unmarshal_failed, operation_failed, policy_end, too_many_policies,
}
use tpm2_library.Vtpm.Env.{Env}

-- A marshaler whose errors are those of the cache.
abbrev pub VtpmMarshal : Type 0
VtpmMarshal = TpmWriter → Result VtpmError (Unit {0}) × TpmWriter

-- `m(writer).map_err(VtpmError::Marshal)`
abbrev pub lift : TpmResult (Unit {0}) × TpmWriter → Result VtpmError (Unit {0}) × TpmWriter
lift (ok done, w) = (ok tt, w)
lift (err e, w) = (err (marshal_failed e), w)

abbrev pub followed_by :
    VtpmMarshal → Result VtpmError (Unit {0}) × TpmWriter → Result VtpmError (Unit {0}) × TpmWriter
followed_by next (ok done, w) = next w
followed_by next (err e, w) = (err e, w)

-- The result of `TpmUint32::try_from`, written.
abbrev pub marshal_length : Option (TpmInt 4) → VtpmMarshal
marshal_length none w = (err operation_failed, w)
marshal_length (some n) w = lift (Integer.marshal 4 n w)

abbrev pub max_policy_count : ℕ
max_policy_count = 16

module _ {P N C Y F : Type 0} (E : Env P N C Y F) where
  unfoldable pub marshal_policy : Y → VtpmMarshal
  marshal_policy y w =
      followed_by (λ w''. lift (write_bytes (E.policy_body y) w''))
        (followed_by (marshal_length (Integer.try_from 4 (length (E.policy_body y))))
          (lift (Enum.marshal 4 Cc.discriminant (E.policy_cc y) w)))

  unfoldable pub marshal_policies : List Y → VtpmMarshal
  unfolding marshal_policy
  marshal_policies [] w = (ok tt, w)
  marshal_policies (y ∷ ys) w = followed_by (marshal_policies ys) (marshal_policy y w)

  unfoldable pub vtpm_marshal_policy_list : List Y → VtpmMarshal
  unfolding marshal_policies
  vtpm_marshal_policy_list ys w =
      followed_by (marshal_policies ys) (marshal_length (Integer.try_from 4 (length ys)) w)

  -- `for _ in 0..count`
  unfoldable pub unmarshal_policies : ℕ → List ℕ → Result VtpmError (List Y × List ℕ)
  unmarshal_policies zero buffer = ok ([], buffer)
  unmarshal_policies (suc n) buffer = do
    (cc, after_cc) ← map_err unmarshal_failed (Enum.unmarshal 4 Cc.discriminant Cc.variants buffer)
    (len, rest) ← map_err unmarshal_failed (Integer.unmarshal 4 after_cc)
    reject_if (ltb (length rest) (Integer.value 4 len)) policy_end
    y ← E.from_parts cc (take (Integer.value 4 len) rest)
    (ys, tail) ← unmarshal_policies n (drop (Integer.value 4 len) rest)
    ok (y ∷ ys, tail)

  unfoldable pub vtpm_unmarshal_policy_list : List ℕ → Result VtpmError (List Y × List ℕ)
  unfolding unmarshal_policies
  vtpm_unmarshal_policy_list buffer = do
    (count, tail) ← map_err unmarshal_failed (Integer.unmarshal 4 buffer)
    reject_if (ltb max_policy_count (Integer.value 4 count))
        (too_many_policies (Integer.value 4 count))
    unmarshal_policies (Integer.value 4 count) tail
