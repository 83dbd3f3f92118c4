-- ===== src/Vtpm/Tests/PolicyList.antt =====
-- Policy lists of crates/vtpm that are written and read again, over commands with a number as a body.
use tpm2_library.Common.{
  ℕ, ◌≤◌, ◌<◌, List, [], ◌∷◌, ◌++◌, none, some, ok, err, Result, ◌≡◌, refl, arith, replicate, ◌==◌,
}
use tpm2_library.Protocol.Writer.{TpmWriter, put}
use tpm2_library.Protocol.Integer.{to_be_bytes}
use tpm2_library.Protocol.Codec.{Codec}
use tpm2_library.Protocol.Constants.Cc.{TpmCc, policy_password, discriminant}
use tpm2_library.Vtpm.Error.{VtpmError, not_found, invalid_policy, too_many_policies}
use tpm2_library.Vtpm.Env.{Env}
use tpm2_library.Vtpm.PolicyList.{
  vtpm_marshal_policy_list, vtpm_unmarshal_policy_list, max_policy_count,
}
use tpm2_library.Vtpm.PolicyList.Reload.{encode_policies, policy_list_reload}

-- No object is stored: the codec has nothing to write.
abbrev empty_codec : Codec (Unit {0})
empty_codec = record {
  max_size = 0;
  len = λ x. 0;
  marshal = λ x w. (ok tt, w);
  unmarshal = λ buf. ok (tt, buf);
}

unit_discrete : Discrete (Unit {0})
unit_discrete a b = yes refl

-- A command is made of the first byte of its body.
abbrev parts : TpmCc → List ℕ → Result VtpmError ℕ
parts cc [] = err invalid_policy
parts cc (b ∷ bs) = ok b

abbrev env : Env (Unit {0}) (Unit {0}) (Unit {0}) ℕ (Unit {0})
env = record {
  public_eq = unit_discrete;
  name_eq = unit_discrete;
  public_codec = empty_codec;
  context_codec = empty_codec;
  is_null = λ p. 0 == 0;
  make_name = λ p. some tt;
  empty_context = tt;
  policy_cc = λ y. policy_password;
  policy_body = λ y. y ∷ [];
  policy_len = λ y. 9;
  from_parts = parts;
  disk = record {
    write_all = λ path bytes f. (none, f);
    rename = λ a b f. (none, f);
    remove_file = λ path f. (none, f);
    file_len = λ path f. err not_found;
    read = λ path f. err not_found;
  };
}

abbrev policies : List ℕ
policies = 7 ∷ (9 ∷ [])

abbrev writer : TpmWriter
writer = record { buffer = replicate 40 0; cursor = 0 }

policy_list_reload_example :
    (vtpm_marshal_policy_list env policies writer
      ≡ (ok tt, put (encode_policies env policies) writer))
    × ((2 ≤ max_policy_count
          → vtpm_unmarshal_policy_list env (encode_policies env policies ++ (1 ∷ []))
            ≡ ok (policies, 1 ∷ []))
        × (max_policy_count < 2
            → vtpm_unmarshal_policy_list env (encode_policies env policies ++ (1 ∷ []))
              ≡ err (too_many_policies 2)))
unfolding discriminant to_be_bytes
policy_list_reload_example =
    policy_list_reload env policies writer (1 ∷ [])
      (record { within = omega arith; addressable = omega arith }) (omega arith)
      ((omega arith, refl), ((omega arith, refl), tt)) (omega arith)
