-- ===== src/Vtpm/Tests/Records.antt =====
-- A key of crates/vtpm that is saved and loaded; its public areas and its context are integers of four
-- bytes.
use tpm2_library.Common.{ℕ, List, [], ◌∷◌, some, ok, err, Result, ◌≡◌, refl, ap, arith, ◌==◌, ◌<◌}
use tpm2_library.Protocol.Writer
use tpm2_library.Protocol.Integer
use tpm2_library.Protocol.Integer.{TpmInt, to_be_bytes}
use tpm2_library.Protocol.Integer.Laws.{codec, IsWf, TpmInt-IsCodec}
use tpm2_library.Protocol.Constants.Cc
use tpm2_library.Protocol.Constants.Cc.{TpmCc, policy_password}
use tpm2_library.Protocol.Enum
use tpm2_library.Vtpm.Error.{VtpmError, invalid_policy}
use tpm2_library.Vtpm.Disk.{write_atomic}
use tpm2_library.Vtpm.Env.{Env}
use tpm2_library.Vtpm.Cache.{VtpmKey}
use tpm2_library.Vtpm.Cache.Remove.{bytes_discrete}
use tpm2_library.Vtpm.PolicyList.{vtpm_marshal_policy_list, marshal_policies, marshal_policy}
use tpm2_library.Vtpm.Record.{save, load, serialized_len, marshal_key, written}
use tpm2_library.Vtpm.Record.Reload.{IsStorable, save-load}
use tpm2_library.Vtpm.Tests.Files.{Files, memory, memory-IsDisk, no_files}

abbrev Number : Type 0
Number = TpmInt 4

-- A command is made of the first byte of its body.
abbrev parts : TpmCc → List ℕ → Result VtpmError ℕ
parts cc [] = err invalid_policy
parts cc (b ∷ bs) = ok b

number_discrete : Discrete Number
number_discrete a b = elim (bytes_discrete a.bytes b.bytes) [
  | yes same ↦ yes (ap (λ x. record { bytes = x }) same)
  | no differs ↦ no (λ e. differs (ap (λ (x : Number). x.bytes) e))
]

abbrev env : Env Number Number Number ℕ Files
env = record {
  public_eq = number_discrete;
  name_eq = number_discrete;
  public_codec = codec 4;
  context_codec = codec 4;
  is_null = λ p. 0 == 1;
  make_name = λ p. some p;
  empty_context = record { bytes = 0 ∷ (0 ∷ (0 ∷ (0 ∷ []))) };
  policy_cc = λ y. policy_password;
  policy_body = λ y. y ∷ [];
  policy_len = λ y. 9;
  from_parts = parts;
  disk = memory;
}

abbrev number : ℕ → Number
number b = record { bytes = 0 ∷ (0 ∷ (0 ∷ (b ∷ []))) }

abbrev key : VtpmKey Number Number ℕ
key = record {
  key_version = 2;
  handle = 0x80000000;
  public = number 1;
  parent = number 0;
  context = number 5;
  policy = 7 ∷ (9 ∷ []);
}

number-IsWf : (b : ℕ) → b < 256 → IsWf (number b)
number-IsWf b h = record {
  width = refl;
  are_bytes = (omega arith, (omega arith, (omega arith, (omega arith, tt))));
}

key-IsStorable : IsStorable env (λ i. i.bytes) IsWf (λ i. i.bytes) IsWf key
unfolding to_be_bytes Cc.discriminant
key-IsStorable = record {
  current = refl;
  handle_fits = omega arith;
  public_ok = number-IsWf 1 (omega arith);
  parent_ok = number-IsWf 0 (omega arith);
  context_ok = number-IsWf 5 (omega arith);
  few = omega arith;
  readable = ((omega arith, refl), ((omega arith, refl), tt));
  sizes = (refl, (refl, tt));
  small = omega arith;
}

saved : save env 0x80000000 key no_files ≡ (ok tt, (save env 0x80000000 key no_files).1)
unfolding save serialized_len marshal_key written vtpm_marshal_policy_list marshal_policies
    marshal_policy Integer.marshal Integer.new Integer.try_from Integer.len Enum.marshal
    Writer.write_bytes Writer.new Writer.as_bytes write_atomic Cc.discriminant to_be_bytes
saved = refl

save-load_example : load env 0x80000000 ((save env 0x80000000 key no_files).1) ≡ ok key
save-load_example =
    save-load env (λ i. i.bytes) IsWf (λ i. i.bytes) IsWf (TpmInt-IsCodec 4) (TpmInt-IsCodec 4) key
      key-IsStorable no_files ((save env 0x80000000 key no_files).1) memory-IsDisk saved
