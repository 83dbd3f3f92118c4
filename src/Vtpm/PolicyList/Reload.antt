-- ===== src/Vtpm/PolicyList/Reload.antt =====
-- crates/vtpm/src/policy.rs: a policy list that was written into a cache record, and is read again.
use tpm2_library.Common.{
  ℕ, suc, ◌+◌, ◌^◌, ◌≤◌, ◌<◌, List, [], ◌∷◌, ◌++◌, append_assoc, some, Result, ok, err, ◌>>=◌,
  length, ltb, lt→ltb, le→ltb, ◌≡◌, refl, ap, ◌∙◌, arith, All, length-append, take-append,
  drop-append, if◌then◌else◌, subst, Bool, true, false, reject_if,
}
use tpm2_library.Protocol.Error.{TpmResult}
use tpm2_library.Protocol.Writer.{
  TpmWriter, Marshal, write_bytes, put, marshal_each, ◌>>◌, and_then,
}
use tpm2_library.Protocol.Writer.Append.{
  IsValid, Emits, >>-Emits, write_bytes-Emits, marshal_each-Emits, encode_each,
}
use tpm2_library.Protocol.Enum
use tpm2_library.Protocol.Enum.Laws.{variant-roundtrip}
use tpm2_library.Protocol.Integer
use tpm2_library.Protocol.Integer.{to_be_bytes}
use tpm2_library.Protocol.Integer.Laws.{marshal_new-Emits, unmarshal-to_be_bytes, value-new}
use tpm2_library.Protocol.Constants.Cc
use tpm2_library.Vtpm.Error.{VtpmError, too_many_policies}
use tpm2_library.Vtpm.Env.{Env}
use tpm2_library.Vtpm.PolicyList.{
  VtpmMarshal, lift, followed_by, marshal_length, marshal_policy, marshal_policies,
  vtpm_marshal_policy_list, unmarshal_policies, vtpm_unmarshal_policy_list, max_policy_count,
}

followed_by-lift :
    (f : VtpmMarshal) (n : Marshal)
    → ((x : TpmWriter) → f x ≡ lift (n x))
    → (r : TpmResult (Unit {0}) × TpmWriter) → followed_by f (lift r) ≡ lift (and_then n r)
followed_by-lift f n same (ok done, x) = same x
followed_by-lift f n same (err e, x) = refl

rejects_or :
    {A : Type 0} (b : Bool) (e : VtpmError) (next : Result VtpmError A)
    → (reject_if b e >>= λ done. next) ≡ (if b then err e else next)
rejects_or true e next = refl
rejects_or false e next = refl

cc-small : (cc : Cc.TpmCc) → Cc.discriminant cc < 256 ^ 4
unfolding Cc.discriminant
cc-small cc = ground arith

length_ok : (n : ℕ) → n < 256 ^ 4 → Integer.try_from 4 n ≡ some (Integer.new 4 n)
unfolding Integer.try_from
length_ok n h = rw (lt→ltb n (256 ^ 4) h) refl

module _ {P N C Y F : Type 0} (E : Env P N C Y F) where
  abbrev pub encode_policy : Y → List ℕ
  encode_policy y =
      to_be_bytes 4 (Cc.discriminant (E.policy_cc y))
      ++ (to_be_bytes 4 (length (E.policy_body y)) ++ E.policy_body y)

  abbrev pub encode_policies : List Y → List ℕ
  encode_policies ys = to_be_bytes 4 (length ys) ++ encode_each encode_policy ys

  abbrev pub IsShort : Y → Type 0
  IsShort y = length (E.policy_body y) < 256 ^ 4

  -- The command that `from_parts` makes of a command's code and body is the command.
  abbrev pub IsReadable : Y → Type 0
  IsReadable y = IsShort y × (E.from_parts (E.policy_cc y) (E.policy_body y) ≡ ok y)

  -- The marshaler of a command, where its length can be written.
  write_policy : Y → Marshal
  write_policy y =
      (Enum.marshal 4 Cc.discriminant (E.policy_cc y)
        >> Integer.marshal 4 (Integer.new 4 (length (E.policy_body y))))
      >> write_bytes (E.policy_body y)

  write_policy-Emits : (y : Y) → IsShort y → Emits (write_policy y) (encode_policy y)
  unfolding write_policy
  write_policy-Emits y short = subst (Emits (write_policy y)) (append_assoc _ _ (E.policy_body y)) (
      >>-Emits _ _ _ _
        (>>-Emits _ _ _ _
          (variant-roundtrip 4 Cc.discriminant Cc.variants Cc.find-discriminant (E.policy_cc y) []
            (cc-small (E.policy_cc y))).0
          (marshal_new-Emits 4 (length (E.policy_body y))))
        (write_bytes-Emits (E.policy_body y)))

  marshal_policy-lift :
      (y : Y) (w : TpmWriter) → IsShort y → marshal_policy E y w ≡ lift (write_policy y w)
  unfolding marshal_policy write_policy
  marshal_policy-lift y w short =
      let code = Enum.marshal 4 Cc.discriminant (E.policy_cc y) in
      let size = Integer.marshal 4 (Integer.new 4 (length (E.policy_body y))) in
      ap (followed_by (λ x. lift (write_bytes (E.policy_body y) x))) (
        followed_by-lift (marshal_length (Integer.try_from 4 (length (E.policy_body y)))) size
          (λ x. ap (λ o. marshal_length o x) (length_ok (length (E.policy_body y)) short)) (code w))
      ∙ followed_by-lift (λ x. lift (write_bytes (E.policy_body y) x))
          (write_bytes (E.policy_body y)) (λ x. refl) ((code >> size) w)

  marshal_policies-lift :
      (ys : List Y) (w : TpmWriter)
      → All IsShort ys
      → marshal_policies E ys w ≡ lift (marshal_each write_policy ys w)
  unfolding marshal_policies marshal_each
  marshal_policies-lift [] w short = refl
  marshal_policies-lift (y ∷ ys) w (here, later) =
      ap (followed_by (marshal_policies E ys)) (marshal_policy-lift y w here)
      ∙ followed_by-lift (marshal_policies E ys) (marshal_each write_policy ys)
          (λ x. marshal_policies-lift ys x later) (write_policy y w)

  -- The list is written as its encoding where there is room for it.
  pub marshal_list :
      (ys : List Y) (w : TpmWriter)
      → IsValid w
      → length ys < 256 ^ 4
      → All IsShort ys
      → w.cursor + length (encode_policies ys) ≤ length w.buffer
      → vtpm_marshal_policy_list E ys w ≡ (ok tt, put (encode_policies ys) w)
  unfolding vtpm_marshal_policy_list
  marshal_list ys w valid few short room =
      let count = Integer.marshal 4 (Integer.new 4 (length ys)) in
      let emits : Emits (count >> marshal_each write_policy ys) (encode_policies ys) =
        >>-Emits _ _ _ _ (marshal_new-Emits 4 (length ys))
          (marshal_each-Emits write_policy encode_policy IsShort write_policy-Emits ys short) in
      ap (λ o. followed_by (marshal_policies E ys) (marshal_length o w)) (length_ok (length ys) few)
      ∙ followed_by-lift (marshal_policies E ys) (marshal_each write_policy ys)
          (λ x. marshal_policies-lift ys x short) (count w)
      ∙ ap lift (emits.fits w valid room)

  read_step :
      (y : Y) (n : ℕ) (buffer t1 t2 rest : List ℕ) (len : Integer.TpmInt 4)
      → Enum.unmarshal 4 Cc.discriminant Cc.variants buffer ≡ ok (E.policy_cc y, t1)
      → Integer.unmarshal 4 t1 ≡ ok (len, t2)
      → Integer.value 4 len ≡ length (E.policy_body y)
      → t2 ≡ E.policy_body y ++ rest
      → E.from_parts (E.policy_cc y) (E.policy_body y) ≡ ok y
      → unmarshal_policies E (suc n) buffer
        ≡ (unmarshal_policies E n rest >>= λ (ys, tail). ok (y ∷ ys, tail))
  unfolding unmarshal_policies
  read_step y n buffer t1 t2 rest len e1 e2 e3 e4 made =
      rw
        (
          e1,
          e2,
          e3,
          e4,
          le→ltb (length (E.policy_body y ++ rest)) (length (E.policy_body y))
              (omega (arith, length-append (E.policy_body y) rest)),
          take-append (E.policy_body y) rest,
          drop-append (E.policy_body y) rest,
          made,
        )
        refl

  read_policy :
      (y : Y) (n : ℕ) (rest : List ℕ)
      → IsReadable y
      → unmarshal_policies E (suc n) (encode_policy y ++ rest)
        ≡ (unmarshal_policies E n rest >>= λ (ys, tail). ok (y ∷ ys, tail))
  read_policy y n rest (short, made) =
      let code = to_be_bytes 4 (Cc.discriminant (E.policy_cc y)) in
      let size = to_be_bytes 4 (length (E.policy_body y)) in
      let body = E.policy_body y in
      let split : encode_policy y ++ rest ≡ code ++ (size ++ (body ++ rest)) =
        append_assoc code (size ++ body) rest ∙ ap (◌++◌ code) (append_assoc size body rest) in
      ap (unmarshal_policies E (suc n)) split
      ∙ read_step y n (code ++ (size ++ (body ++ rest))) (size ++ (body ++ rest)) (body ++ rest)
          rest (Integer.new 4 (length body))
          (variant-roundtrip 4 Cc.discriminant Cc.variants Cc.find-discriminant (E.policy_cc y)
            (size ++ (body ++ rest)) (cc-small (E.policy_cc y))).1
          (unmarshal-to_be_bytes 4 (length body) (body ++ rest)) (value-new 4 (length body) short)
          refl made

  read_policies :
      (ys : List Y) (rest : List ℕ)
      → All IsReadable ys
      → unmarshal_policies E (length ys) (encode_each encode_policy ys ++ rest) ≡ ok (ys, rest)
  unfolding unmarshal_policies
  read_policies [] rest readable = refl
  read_policies (y ∷ ys) rest (here, later) =
      ap (unmarshal_policies E (suc (length ys)))
        (append_assoc (encode_policy y) (encode_each encode_policy ys) rest)
      ∙ read_policy y (length ys) (encode_each encode_policy ys ++ rest) here
      ∙ ap (λ r. r >>= λ (zs, tail). ok (y ∷ zs, tail)) (read_policies ys rest later)

  list_step :
      (ys : List Y) (rest : List ℕ)
      → length ys < 256 ^ 4
      → vtpm_unmarshal_policy_list E (encode_policies ys ++ rest) ≡ (
          if ltb max_policy_count (length ys)
          then err (too_many_policies (length ys))
          else unmarshal_policies E (length ys) (encode_each encode_policy ys ++ rest))
  unfolding vtpm_unmarshal_policy_list
  list_step ys rest few =
      rw
        (
          append_assoc (to_be_bytes 4 (length ys)) (encode_each encode_policy ys) rest,
          unmarshal-to_be_bytes 4 (length ys) (encode_each encode_policy ys ++ rest),
          value-new 4 (length ys) few,
        )
        (rejects_or (ltb max_policy_count (length ys)) (too_many_policies (length ys))
          (unmarshal_policies E (length ys) (encode_each encode_policy ys ++ rest)))

  pub readable_parts : (ys : List Y) → All IsReadable ys → All IsShort ys
  readable_parts [] h = tt
  readable_parts (y ∷ ys) (here, later) = (here.0, readable_parts ys later)

  pub read_list :
      (ys : List Y) (rest : List ℕ)
      → length ys ≤ max_policy_count
      → All IsReadable ys
      → vtpm_unmarshal_policy_list E (encode_policies ys ++ rest) ≡ ok (ys, rest)
  read_list ys rest enough readable =
      list_step ys rest (omega arith)
      ∙ rw (le→ltb max_policy_count (length ys) enough) (read_policies ys rest readable)

  -- Policy commands that `from_parts` gives back, written into a record with room for them, are read
  -- again exactly, with the bytes behind them, when there are at most sixteen of them; a longer list is
  -- written just as well, and is an error when it is read.
  pub policy_list_reload :
      (ys : List Y) (w : TpmWriter) (rest : List ℕ)
      → IsValid w
      → length ys < 256 ^ 4
      → All IsReadable ys
      → w.cursor + length (encode_policies ys) ≤ length w.buffer
      → (vtpm_marshal_policy_list E ys w ≡ (ok tt, put (encode_policies ys) w))
        × ((length ys ≤ max_policy_count
              → vtpm_unmarshal_policy_list E (encode_policies ys ++ rest) ≡ ok (ys, rest))
            × (max_policy_count < length ys
                → vtpm_unmarshal_policy_list E (encode_policies ys ++ rest)
                  ≡ err (too_many_policies (length ys))))
  policy_list_reload ys w rest valid few readable room = (
    marshal_list ys w valid few (readable_parts ys readable) room,
    (
      λ enough. read_list ys rest enough readable,
      λ many. list_step ys rest few ∙ rw (lt→ltb max_policy_count (length ys) many) refl,
    ),
  )
