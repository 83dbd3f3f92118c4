-- ===== src/Vtpm/Record/Reload.antt =====
-- crates/vtpm/src/lib.rs: a key that `save` has written is what `load` reads.
use tpm2_library.Common.{
  ℕ, ◌+◌, ◌^◌, ◌≤◌, ◌<◌, List, [], ◌∷◌, ◌++◌, append_assoc, append-nil, Result, ok, length,
  length-append, length-replicate, replicate, le→ltb, ==_refl, ◌≡◌, refl, sym, ap, ◌∙◌, arith, All,
}
use tpm2_library.Protocol.Codec.{IsCodec}
use tpm2_library.Protocol.Writer
use tpm2_library.Protocol.Writer.{TpmWriter, as_bytes, put}
use tpm2_library.Protocol.Writer.Append.{
  IsValid, Emits, >>-Emits, as_bytes-put, put-IsValid, encode_each, length-put,
}
use tpm2_library.Protocol.Integer.{to_be_bytes}
use tpm2_library.Protocol.Integer.Bytes.{length-to_be_bytes}
use tpm2_library.Protocol.Integer.Laws.{marshal_new-Emits, unmarshal-to_be_bytes, value-new}
use tpm2_library.Protocol.Constants.Cc.{discriminant}
use tpm2_library.Vtpm.Error.{VtpmError}
use tpm2_library.Vtpm.Disk.{cache_file, write_atomic}
use tpm2_library.Vtpm.Disk.Laws.{IsDisk, write_atomic-IsAtomic}
use tpm2_library.Vtpm.Env.{Env}
use tpm2_library.Vtpm.Cache.{VtpmKey, version}
use tpm2_library.Vtpm.PolicyList.{
  lift, followed_by, vtpm_marshal_policy_list, vtpm_unmarshal_policy_list, max_policy_count,
}
use tpm2_library.Vtpm.PolicyList.Reload.{
  IsReadable, encode_policy, encode_policies, read_list, marshal_list, readable_parts,
}
use tpm2_library.Vtpm.Record.{
  max_record_size, policies_len, serialized_len, marshal_fixed, marshal_key, written, save,
  parse_key, load,
}

module _ {P N C Y F : Type 0} (E : Env P N C Y F) (encode_public : P → List ℕ)
    (IsPublic : P → Type 0) (encode_context : C → List ℕ) (IsContext : C → Type 0) where
  abbrev pub encode_fixed : VtpmKey P C Y → List ℕ
  encode_fixed k =
      to_be_bytes 4 k.key_version
      ++ (to_be_bytes 4 k.handle
          ++ (encode_public k.public ++ (encode_public k.parent ++ encode_context k.context)))

  abbrev pub encode_key : VtpmKey P C Y → List ℕ
  encode_key k = encode_fixed k ++ encode_policies E k.policy

  -- A key as the cache makes it, small enough to be loaded, with policy commands that can be read back
  -- and that know their length.
  pub record IsStorable (k : VtpmKey P C Y) : Type 0 where
    pub current : k.key_version ≡ version
    pub handle_fits : k.handle < 256 ^ 4
    pub public_ok : IsPublic k.public
    pub parent_ok : IsPublic k.parent
    pub context_ok : IsContext k.context
    pub few : length k.policy ≤ max_policy_count
    pub readable : All (IsReadable E) k.policy
    pub sizes : All (λ (y : Y). E.policy_len y ≡ 8 + length (E.policy_body y)) k.policy
    pub small : length (encode_key k) ≤ max_record_size

  module _ (public_lawful : IsCodec E.public_codec encode_public IsPublic)
      (context_lawful : IsCodec E.context_codec encode_context IsContext) where
    module _ (k : VtpmKey P C Y) (ok_key : IsStorable k) where
      parse_key-encode_key : parse_key E k.handle (encode_key k) ≡ ok k
      unfolding parse_key
      parse_key-encode_key =
          let tail = encode_policies E k.policy in
          let c = encode_context k.context in
          let q = encode_public k.parent in
          let p = encode_public k.public in
          let h = to_be_bytes 4 k.handle in
          let v = to_be_bytes 4 k.key_version in
          let split : encode_key k ≡ v ++ (h ++ (p ++ (q ++ (c ++ tail)))) =
            append_assoc v (h ++ (p ++ (q ++ c))) tail
            ∙ ap (◌++◌ v) (
                append_assoc h (p ++ (q ++ c)) tail
                ∙ ap (◌++◌ h)
                    (append_assoc p (q ++ c) tail ∙ ap (◌++◌ p) (append_assoc q c tail))) in
          rw
            (
              split,
              unmarshal-to_be_bytes 4 k.key_version (h ++ (p ++ (q ++ (c ++ tail)))),
              value-new 4 k.key_version (omega (arith, ok_key.current)),
              ok_key.current,
              unmarshal-to_be_bytes 4 k.handle (p ++ (q ++ (c ++ tail))),
              value-new 4 k.handle ok_key.handle_fits,
              ==_refl k.handle,
              public_lawful.reads k.public (q ++ (c ++ tail)) ok_key.public_ok,
              public_lawful.reads k.parent (c ++ tail) ok_key.parent_ok,
              context_lawful.reads k.context tail ok_key.context_ok,
            )
            (rw
              (ap (vtpm_unmarshal_policy_list E) (sym (append-nil tail))
                ∙ read_list E k.policy [] ok_key.few ok_key.readable)
              refl)

      fixed-Emits : Emits (marshal_fixed E k) (encode_fixed k)
      fixed-Emits = >>-Emits _ _ _ _ (marshal_new-Emits 4 k.key_version) (
          >>-Emits _ _ _ _ (marshal_new-Emits 4 k.handle) (
            >>-Emits _ _ _ _ (public_lawful.emits k.public ok_key.public_ok) (
              >>-Emits _ _ _ _ (public_lawful.emits k.parent ok_key.parent_ok)
                (context_lawful.emits k.context ok_key.context_ok))))

      length-policies :
          (ys : List Y)
          → All (λ (y : Y). E.policy_len y ≡ 8 + length (E.policy_body y)) ys
          → length (encode_each (encode_policy E) ys) ≡ policies_len E ys
      length-policies [] h = refl
      length-policies (y ∷ ys) (here, later) =
          let code = to_be_bytes 4 (discriminant (E.policy_cc y)) in
          let size = to_be_bytes 4 (length (E.policy_body y)) in
          omega (
            arith,
            here,
            length-policies ys later,
            length-append (encode_policy E y) (encode_each (encode_policy E) ys),
            length-append code (size ++ E.policy_body y),
            length-append size (E.policy_body y),
            length-to_be_bytes 4 (discriminant (E.policy_cc y)),
            length-to_be_bytes 4 (length (E.policy_body y)),
          )

      length-fixed :
          length (encode_fixed k)
          ≡ 8
            + (E.public_codec.len k.public
                + (E.public_codec.len k.parent + E.context_codec.len k.context))
      length-fixed =
          let c = encode_context k.context in
          let q = encode_public k.parent in
          let p = encode_public k.public in
          let h = to_be_bytes 4 k.handle in
          let v = to_be_bytes 4 k.key_version in
          omega (
            arith,
            length-append v (h ++ (p ++ (q ++ c))),
            length-append h (p ++ (q ++ c)),
            length-append p (q ++ c),
            length-append q c,
            length-to_be_bytes 4 k.handle,
            length-to_be_bytes 4 k.key_version,
            public_lawful.len_encode k.public ok_key.public_ok,
            public_lawful.len_encode k.parent ok_key.parent_ok,
            context_lawful.len_encode k.context ok_key.context_ok,
          )

      length-list : length (encode_policies E k.policy) ≡ 4 + policies_len E k.policy
      length-list = omega (
        arith,
        length-append (to_be_bytes 4 (length k.policy)) (encode_each (encode_policy E) k.policy),
        length-to_be_bytes 4 (length k.policy),
        length-policies k.policy ok_key.sizes,
      )

      -- `serialized_len` is the length of the record.
      length-encode_key : length (encode_key k) ≡ serialized_len E k
      unfolding serialized_len
      length-encode_key = omega (
        arith,
        length-fixed,
        length-list,
        length-append (encode_fixed k) (encode_policies E k.policy),
      )

      abbrev fresh : TpmWriter
      fresh = record { buffer = replicate (serialized_len E k) 0; cursor = 0 }

      fresh-IsValid : IsValid fresh
      fresh-IsValid = record {
        within = omega arith;
        addressable = omega (
          arith,
          length-encode_key,
          ok_key.small,
          length-replicate {A = ℕ} (serialized_len E k) 0,
        );
      }

      room_fixed : fresh.cursor + length (encode_fixed k) ≤ length fresh.buffer
      room_fixed = omega (
        arith,
        length-encode_key,
        length-replicate {A = ℕ} (serialized_len E k) 0,
        length-append (encode_fixed k) (encode_policies E k.policy),
      )

      abbrev half : TpmWriter
      half = put (encode_fixed k) fresh

      half-IsValid : IsValid half
      half-IsValid = put-IsValid (encode_fixed k) fresh fresh-IsValid room_fixed

      room_list : half.cursor + length (encode_policies E k.policy) ≤ length half.buffer
      room_list = omega (
        arith,
        length-put (encode_fixed k) fresh room_fixed,
        length-encode_key,
        length-replicate {A = ℕ} (serialized_len E k) 0,
        length-append (encode_fixed k) (encode_policies E k.policy),
      )

      marshal_key-run : marshal_key E k fresh ≡ (ok tt, put (encode_policies E k.policy) half)
      unfolding marshal_key
      marshal_key-run =
          ap (λ r. followed_by (vtpm_marshal_policy_list E k.policy) (lift r))
            (fixed-Emits.fits fresh fresh-IsValid room_fixed)
          ∙ marshal_list E k.policy half half-IsValid (omega (arith, ok_key.few))
              (readable_parts E k.policy ok_key.readable) room_list

      record_bytes : as_bytes (put (encode_policies E k.policy) half) ≡ encode_key k
      unfolding as_bytes
      record_bytes =
          as_bytes-put (encode_policies E k.policy) half half-IsValid room_list
          ∙ ap (λ x. x ++ encode_policies E k.policy)
              (as_bytes-put (encode_fixed k) fresh fresh-IsValid room_fixed)

      save-write_atomic :
          (f : F) → save E k.handle k f ≡ write_atomic E.disk k.handle (encode_key k) f
      unfolding save Writer.new
      save-write_atomic f =
          ap (written E k.handle f) marshal_key-run
          ∙ ap (λ b. write_atomic E.disk k.handle b f) record_bytes

      -- On a directory whose calls keep to their documentation, and with lawful codecs, a key of the
      -- current version with at most sixteen readable policy commands, whose record is at most 16384 bytes
      -- long, is loaded again exactly as it was, whenever `save` has succeeded.
      pub save-load :
          (f f' : F) → IsDisk E.disk → save E k.handle k f ≡ (ok tt, f') → load E k.handle f' ≡ ok k
      unfolding load
      save-load f f' laws e =
          let done : write_atomic E.disk k.handle (encode_key k) f ≡ (ok tt, f') =
            sym (save-write_atomic f) ∙ e in
          let atomic = write_atomic-IsAtomic E.disk laws k.handle (encode_key k) f in
          let there : E.disk.read (cache_file k.handle) f' ≡ ok (encode_key k) =
            ap (λ (r : Result VtpmError (Unit {0}) × F). E.disk.read (cache_file k.handle) r.1)
              (sym done)
            ∙ atomic.stored (ap (λ (r : Result VtpmError (Unit {0}) × F). r.0) done) in
          rw
            (
              laws.measures (cache_file k.handle) (encode_key k) f' there,
              le→ltb max_record_size (length (encode_key k)) ok_key.small,
              there,
            )
            parse_key-encode_key
