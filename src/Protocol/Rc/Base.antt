-- ===== src/Protocol/Rc/Base.antt =====
-- crates/protocol/src/data/enum/rc.rs: the constants and `TpmRcBase`, the response codes without
-- their index. The discriminants join bits that do not overlap, so `|` is `+`.
use tpm2_library.Common.{ℕ, ◌+◌, List, [], ◌∷◌}

abbrev pub rc_ver1 : ℕ
rc_ver1 = 0x100

abbrev pub rc_fmt1 : ℕ
rc_fmt1 = 0x80

abbrev pub rc_warn : ℕ
rc_warn = 0x900

-- A name that would be unclear beside the program's types has the prefix `rc_`.
pub data TpmRcBase : Type 0 where
  success bad_tag initialize failure sequence rc_private hmac disabled exclusive : TpmRcBase
  auth_type auth_missing rc_policy pcr pcr_changed upgrade too_many_contexts : TpmRcBase
  auth_unavailable reboot unbalanced command_size command_code auth_size : TpmRcBase
  auth_context nv_range nv_size nv_locked nv_authorization nv_uninitialized : TpmRcBase
  nv_space nv_defined bad_context cp_hash parent needs_test no_result sensitive : TpmRcBase
  read_only asymmetric attributes rc_hash rc_value hierarchy key_size mgf rc_mode : TpmRcBase
  rc_type rc_handle kdf rc_range auth_fail nonce pp scheme rc_size symmetric : TpmRcBase
  rc_tag selector insufficient signature rc_key policy_fail integrity ticket : TpmRcBase
  reserved_bits bad_auth expired policy_cc binding curve ecc_point fw_limited : TpmRcBase
  svn_limited channel channel_key context_gap object_memory session_memory memory : TpmRcBase
  session_handles object_handles locality yielded canceled testing reference_h0 : TpmRcBase
  reference_h1 reference_h2 reference_h3 reference_h4 reference_h5 reference_h6 : TpmRcBase
  reference_s0 reference_s1 reference_s2 reference_s3 reference_s4 reference_s5 : TpmRcBase
  reference_s6 nv_rate lockout retry nv_unavailable not_used : TpmRcBase

unfoldable pub discriminant : TpmRcBase → ℕ
discriminant success = 0x0
discriminant bad_tag = 0x1e
discriminant initialize = rc_ver1
discriminant failure = rc_ver1 + 0x1
discriminant sequence = rc_ver1 + 0x3
discriminant rc_private = rc_ver1 + 0xb
discriminant hmac = rc_ver1 + 0x19
discriminant disabled = rc_ver1 + 0x20
discriminant exclusive = rc_ver1 + 0x21
discriminant auth_type = rc_ver1 + 0x24
discriminant auth_missing = rc_ver1 + 0x25
discriminant rc_policy = rc_ver1 + 0x26
discriminant pcr = rc_ver1 + 0x27
discriminant pcr_changed = rc_ver1 + 0x28
discriminant upgrade = rc_ver1 + 0x2d
discriminant too_many_contexts = rc_ver1 + 0x2e
discriminant auth_unavailable = rc_ver1 + 0x2f
discriminant reboot = rc_ver1 + 0x30
discriminant unbalanced = rc_ver1 + 0x31
discriminant command_size = rc_ver1 + 0x42
discriminant command_code = rc_ver1 + 0x43
discriminant auth_size = rc_ver1 + 0x44
discriminant auth_context = rc_ver1 + 0x45
discriminant nv_range = rc_ver1 + 0x46
discriminant nv_size = rc_ver1 + 0x47
discriminant nv_locked = rc_ver1 + 0x48
discriminant nv_authorization = rc_ver1 + 0x49
discriminant nv_uninitialized = rc_ver1 + 0x4a
discriminant nv_space = rc_ver1 + 0x4b
discriminant nv_defined = rc_ver1 + 0x4c
discriminant bad_context = rc_ver1 + 0x50
discriminant cp_hash = rc_ver1 + 0x51
discriminant parent = rc_ver1 + 0x52
discriminant needs_test = rc_ver1 + 0x53
discriminant no_result = rc_ver1 + 0x54
discriminant sensitive = rc_ver1 + 0x55
discriminant read_only = rc_ver1 + 0x56
discriminant asymmetric = rc_fmt1 + 0x1
discriminant attributes = rc_fmt1 + 0x2
discriminant rc_hash = rc_fmt1 + 0x3
discriminant rc_value = rc_fmt1 + 0x4
discriminant hierarchy = rc_fmt1 + 0x5
discriminant key_size = rc_fmt1 + 0x7
discriminant mgf = rc_fmt1 + 0x8
discriminant rc_mode = rc_fmt1 + 0x9
discriminant rc_type = rc_fmt1 + 0xa
discriminant rc_handle = rc_fmt1 + 0xb
discriminant kdf = rc_fmt1 + 0xc
discriminant rc_range = rc_fmt1 + 0xd
discriminant auth_fail = rc_fmt1 + 0xe
discriminant nonce = rc_fmt1 + 0xf
discriminant pp = rc_fmt1 + 0x10
discriminant scheme = rc_fmt1 + 0x12
discriminant rc_size = rc_fmt1 + 0x15
discriminant symmetric = rc_fmt1 + 0x16
discriminant rc_tag = rc_fmt1 + 0x17
discriminant selector = rc_fmt1 + 0x18
discriminant insufficient = rc_fmt1 + 0x1a
discriminant signature = rc_fmt1 + 0x1b
discriminant rc_key = rc_fmt1 + 0x1c
discriminant policy_fail = rc_fmt1 + 0x1d
discriminant integrity = rc_fmt1 + 0x1f
discriminant ticket = rc_fmt1 + 0x20
discriminant reserved_bits = rc_fmt1 + 0x21
discriminant bad_auth = rc_fmt1 + 0x22
discriminant expired = rc_fmt1 + 0x23
discriminant policy_cc = rc_fmt1 + 0x24
discriminant binding = rc_fmt1 + 0x25
discriminant curve = rc_fmt1 + 0x26
discriminant ecc_point = rc_fmt1 + 0x27
discriminant fw_limited = rc_fmt1 + 0x28
discriminant svn_limited = rc_fmt1 + 0x29
discriminant channel = rc_fmt1 + 0x30
discriminant channel_key = rc_fmt1 + 0x31
discriminant context_gap = rc_warn + 0x1
discriminant object_memory = rc_warn + 0x2
discriminant session_memory = rc_warn + 0x3
discriminant memory = rc_warn + 0x4
discriminant session_handles = rc_warn + 0x5
discriminant object_handles = rc_warn + 0x6
discriminant locality = rc_warn + 0x7
discriminant yielded = rc_warn + 0x8
discriminant canceled = rc_warn + 0x9
discriminant testing = rc_warn + 0xa
discriminant reference_h0 = rc_warn + 0x10
discriminant reference_h1 = rc_warn + 0x11
discriminant reference_h2 = rc_warn + 0x12
discriminant reference_h3 = rc_warn + 0x13
discriminant reference_h4 = rc_warn + 0x14
discriminant reference_h5 = rc_warn + 0x15
discriminant reference_h6 = rc_warn + 0x16
discriminant reference_s0 = rc_warn + 0x18
discriminant reference_s1 = rc_warn + 0x19
discriminant reference_s2 = rc_warn + 0x1a
discriminant reference_s3 = rc_warn + 0x1b
discriminant reference_s4 = rc_warn + 0x1c
discriminant reference_s5 = rc_warn + 0x1d
discriminant reference_s6 = rc_warn + 0x1e
discriminant nv_rate = rc_warn + 0x20
discriminant lockout = rc_warn + 0x21
discriminant retry = rc_warn + 0x22
discriminant nv_unavailable = rc_warn + 0x23
discriminant not_used = 0xffffffff

-- In the order of the source.
abbrev pub variants : List TpmRcBase
variants =
    success ∷ bad_tag ∷ initialize ∷ failure ∷ sequence ∷ rc_private ∷ hmac ∷ disabled ∷ exclusive
    ∷ auth_type ∷ auth_missing ∷ rc_policy ∷ pcr ∷ pcr_changed ∷ upgrade ∷ too_many_contexts
    ∷ auth_unavailable ∷ reboot ∷ unbalanced ∷ command_size ∷ command_code ∷ auth_size
    ∷ auth_context ∷ nv_range ∷ nv_size ∷ nv_locked ∷ nv_authorization ∷ nv_uninitialized ∷ nv_space
    ∷ nv_defined ∷ bad_context ∷ cp_hash ∷ parent ∷ needs_test ∷ no_result ∷ sensitive ∷ read_only
    ∷ asymmetric ∷ attributes ∷ rc_hash ∷ rc_value ∷ hierarchy ∷ key_size ∷ mgf ∷ rc_mode ∷ rc_type
    ∷ rc_handle ∷ kdf ∷ rc_range ∷ auth_fail ∷ nonce ∷ pp ∷ scheme ∷ rc_size ∷ symmetric ∷ rc_tag
    ∷ selector ∷ insufficient ∷ signature ∷ rc_key ∷ policy_fail ∷ integrity ∷ ticket
    ∷ reserved_bits ∷ bad_auth ∷ expired ∷ policy_cc ∷ binding ∷ curve ∷ ecc_point ∷ fw_limited
    ∷ svn_limited ∷ channel ∷ channel_key ∷ context_gap ∷ object_memory ∷ session_memory ∷ memory
    ∷ session_handles ∷ object_handles ∷ locality ∷ yielded ∷ canceled ∷ testing ∷ reference_h0
    ∷ reference_h1 ∷ reference_h2 ∷ reference_h3 ∷ reference_h4 ∷ reference_h5 ∷ reference_h6
    ∷ reference_s0 ∷ reference_s1 ∷ reference_s2 ∷ reference_s3 ∷ reference_s4 ∷ reference_s5
    ∷ reference_s6 ∷ nv_rate ∷ lockout ∷ retry ∷ nv_unavailable ∷ not_used ∷ []
