-- ===== src/Protocol/Constants/Cc.antt =====
-- crates/protocol/src/data/enum/mod.rs: `TpmCc`, the variants and discriminants that `tpm_enum!` is
-- given there, over 4 bytes.
use tpm2_library.Common.{ℕ, List, [], ◌∷◌, some, ok, ◌≡◌, ◌↔◌, arith}
use tpm2_library.Protocol.Enum.{find, try_from}
use tpm2_library.Protocol.Enum.Laws.{try_from_iff}

pub data TpmCc : Type 0 where
  nv_undefine_space_special evict_control hierarchy_control nv_undefine_space : TpmCc
  change_eps change_pps clear clear_control clock_set hierarchy_change_auth : TpmCc
  nv_define_space pcr_allocate pcr_set_auth_policy pp_commands set_primary_policy : TpmCc
  field_upgrade_start clock_rate_adjust create_primary nv_global_write_lock : TpmCc
  get_command_audit_digest nv_increment nv_set_bits nv_extend nv_write nv_write_lock : TpmCc
  dictionary_attack_lock_reset dictionary_attack_parameters nv_change_auth pcr_event : TpmCc
  pcr_reset sequence_complete set_algorithm_set set_command_code_audit_status : TpmCc
  field_upgrade_data incremental_self_test self_test startup shutdown stir_random : TpmCc
  activate_credential certify policy_nv certify_creation duplicate get_time : TpmCc
  get_session_audit_digest nv_read nv_read_lock object_change_auth policy_secret : TpmCc
  rewrap create ecdh_zgen hmac import load quote rsa_decrypt hmac_start : TpmCc
  sequence_update sign unseal policy_signed context_load context_save ecdh_key_gen : TpmCc
  encrypt_decrypt flush_context load_external make_credential nv_read_public : TpmCc
  policy_authorize policy_auth_value policy_command_code policy_counter_timer : TpmCc
  policy_cp_hash policy_locality policy_name_hash policy_or policy_ticket read_public : TpmCc
  rsa_encrypt start_auth_session verify_signature ecc_parameters firmware_read : TpmCc
  get_capability get_random get_test_result cc_hash pcr_read policy_pcr policy_restart : TpmCc
  read_clock pcr_extend pcr_set_auth_value nv_certify event_sequence_complete : TpmCc
  hash_sequence_start policy_physical_presence policy_duplication_select : TpmCc
  policy_get_digest test_parms commit policy_password zgen2_phase ec_ephemeral : TpmCc
  policy_nv_written policy_template create_loaded policy_authorize_nv encrypt_decrypt2 : TpmCc
  ac_get_capability ac_send policy_ac_send_select act_set_timeout ecc_encrypt : TpmCc
  ecc_decrypt policy_capability policy_parameters nv_define_space2 nv_read_public2 : TpmCc
  set_capability read_only_control policy_transport_spdm vendor_tcg_test : TpmCc

unfoldable pub discriminant : TpmCc → ℕ
discriminant nv_undefine_space_special = 0x11f
discriminant evict_control = 0x120
discriminant hierarchy_control = 0x121
discriminant nv_undefine_space = 0x122
discriminant change_eps = 0x124
discriminant change_pps = 0x125
discriminant clear = 0x126
discriminant clear_control = 0x127
discriminant clock_set = 0x128
discriminant hierarchy_change_auth = 0x129
discriminant nv_define_space = 0x12a
discriminant pcr_allocate = 0x12b
discriminant pcr_set_auth_policy = 0x12c
discriminant pp_commands = 0x12d
discriminant set_primary_policy = 0x12e
discriminant field_upgrade_start = 0x12f
discriminant clock_rate_adjust = 0x130
discriminant create_primary = 0x131
discriminant nv_global_write_lock = 0x132
discriminant get_command_audit_digest = 0x133
discriminant nv_increment = 0x134
discriminant nv_set_bits = 0x135
discriminant nv_extend = 0x136
discriminant nv_write = 0x137
discriminant nv_write_lock = 0x138
discriminant dictionary_attack_lock_reset = 0x139
discriminant dictionary_attack_parameters = 0x13a
discriminant nv_change_auth = 0x13b
discriminant pcr_event = 0x13c
discriminant pcr_reset = 0x13d
discriminant sequence_complete = 0x13e
discriminant set_algorithm_set = 0x13f
discriminant set_command_code_audit_status = 0x140
discriminant field_upgrade_data = 0x141
discriminant incremental_self_test = 0x142
discriminant self_test = 0x143
discriminant startup = 0x144
discriminant shutdown = 0x145
discriminant stir_random = 0x146
discriminant activate_credential = 0x147
discriminant certify = 0x148
discriminant policy_nv = 0x149
discriminant certify_creation = 0x14a
discriminant duplicate = 0x14b
discriminant get_time = 0x14c
discriminant get_session_audit_digest = 0x14d
discriminant nv_read = 0x14e
discriminant nv_read_lock = 0x14f
discriminant object_change_auth = 0x150
discriminant policy_secret = 0x151
discriminant rewrap = 0x152
discriminant create = 0x153
discriminant ecdh_zgen = 0x154
discriminant hmac = 0x155
discriminant import = 0x156
discriminant load = 0x157
discriminant quote = 0x158
discriminant rsa_decrypt = 0x159
discriminant hmac_start = 0x15b
discriminant sequence_update = 0x15c
discriminant sign = 0x15d
discriminant unseal = 0x15e
discriminant policy_signed = 0x160
discriminant context_load = 0x161
discriminant context_save = 0x162
discriminant ecdh_key_gen = 0x163
discriminant encrypt_decrypt = 0x164
discriminant flush_context = 0x165
discriminant load_external = 0x167
discriminant make_credential = 0x168
discriminant nv_read_public = 0x169
discriminant policy_authorize = 0x16a
discriminant policy_auth_value = 0x16b
discriminant policy_command_code = 0x16c
discriminant policy_counter_timer = 0x16d
discriminant policy_cp_hash = 0x16e
discriminant policy_locality = 0x16f
discriminant policy_name_hash = 0x170
discriminant policy_or = 0x171
discriminant policy_ticket = 0x172
discriminant read_public = 0x173
discriminant rsa_encrypt = 0x174
discriminant start_auth_session = 0x176
discriminant verify_signature = 0x177
discriminant ecc_parameters = 0x178
discriminant firmware_read = 0x179
discriminant get_capability = 0x17a
discriminant get_random = 0x17b
discriminant get_test_result = 0x17c
discriminant cc_hash = 0x17d
discriminant pcr_read = 0x17e
discriminant policy_pcr = 0x17f
discriminant policy_restart = 0x180
discriminant read_clock = 0x181
discriminant pcr_extend = 0x182
discriminant pcr_set_auth_value = 0x183
discriminant nv_certify = 0x184
discriminant event_sequence_complete = 0x185
discriminant hash_sequence_start = 0x186
discriminant policy_physical_presence = 0x187
discriminant policy_duplication_select = 0x188
discriminant policy_get_digest = 0x189
discriminant test_parms = 0x18a
discriminant commit = 0x18b
discriminant policy_password = 0x18c
discriminant zgen2_phase = 0x18d
discriminant ec_ephemeral = 0x18e
discriminant policy_nv_written = 0x18f
discriminant policy_template = 0x190
discriminant create_loaded = 0x191
discriminant policy_authorize_nv = 0x192
discriminant encrypt_decrypt2 = 0x193
discriminant ac_get_capability = 0x194
discriminant ac_send = 0x195
discriminant policy_ac_send_select = 0x196
discriminant act_set_timeout = 0x198
discriminant ecc_encrypt = 0x199
discriminant ecc_decrypt = 0x19a
discriminant policy_capability = 0x19b
discriminant policy_parameters = 0x19c
discriminant nv_define_space2 = 0x19d
discriminant nv_read_public2 = 0x19e
discriminant set_capability = 0x19f
discriminant read_only_control = 0x1a0
discriminant policy_transport_spdm = 0x1a1
discriminant vendor_tcg_test = 0x20000000

-- In the order of the source.
abbrev pub variants : List TpmCc
variants =
    nv_undefine_space_special ∷ evict_control ∷ hierarchy_control ∷ nv_undefine_space ∷ change_eps
    ∷ change_pps ∷ clear ∷ clear_control ∷ clock_set ∷ hierarchy_change_auth ∷ nv_define_space
    ∷ pcr_allocate ∷ pcr_set_auth_policy ∷ pp_commands ∷ set_primary_policy ∷ field_upgrade_start
    ∷ clock_rate_adjust ∷ create_primary ∷ nv_global_write_lock ∷ get_command_audit_digest
    ∷ nv_increment ∷ nv_set_bits ∷ nv_extend ∷ nv_write ∷ nv_write_lock
    ∷ dictionary_attack_lock_reset ∷ dictionary_attack_parameters ∷ nv_change_auth ∷ pcr_event
    ∷ pcr_reset ∷ sequence_complete ∷ set_algorithm_set ∷ set_command_code_audit_status
    ∷ field_upgrade_data ∷ incremental_self_test ∷ self_test ∷ startup ∷ shutdown ∷ stir_random
    ∷ activate_credential ∷ certify ∷ policy_nv ∷ certify_creation ∷ duplicate ∷ get_time
    ∷ get_session_audit_digest ∷ nv_read ∷ nv_read_lock ∷ object_change_auth ∷ policy_secret
    ∷ rewrap ∷ create ∷ ecdh_zgen ∷ hmac ∷ import ∷ load ∷ quote ∷ rsa_decrypt ∷ hmac_start
    ∷ sequence_update ∷ sign ∷ unseal ∷ policy_signed ∷ context_load ∷ context_save ∷ ecdh_key_gen
    ∷ encrypt_decrypt ∷ flush_context ∷ load_external ∷ make_credential ∷ nv_read_public
    ∷ policy_authorize ∷ policy_auth_value ∷ policy_command_code ∷ policy_counter_timer
    ∷ policy_cp_hash ∷ policy_locality ∷ policy_name_hash ∷ policy_or ∷ policy_ticket ∷ read_public
    ∷ rsa_encrypt ∷ start_auth_session ∷ verify_signature ∷ ecc_parameters ∷ firmware_read
    ∷ get_capability ∷ get_random ∷ get_test_result ∷ cc_hash ∷ pcr_read ∷ policy_pcr
    ∷ policy_restart ∷ read_clock ∷ pcr_extend ∷ pcr_set_auth_value ∷ nv_certify
    ∷ event_sequence_complete ∷ hash_sequence_start ∷ policy_physical_presence
    ∷ policy_duplication_select ∷ policy_get_digest ∷ test_parms ∷ commit ∷ policy_password
    ∷ zgen2_phase ∷ ec_ephemeral ∷ policy_nv_written ∷ policy_template ∷ create_loaded
    ∷ policy_authorize_nv ∷ encrypt_decrypt2 ∷ ac_get_capability ∷ ac_send ∷ policy_ac_send_select
    ∷ act_set_timeout ∷ ecc_encrypt ∷ ecc_decrypt ∷ policy_capability ∷ policy_parameters
    ∷ nv_define_space2 ∷ nv_read_public2 ∷ set_capability ∷ read_only_control
    ∷ policy_transport_spdm ∷ vendor_tcg_test ∷ []

pub find-discriminant : (v : TpmCc) → find 4 discriminant variants (discriminant v) ≡ some v
unfolding find discriminant
find-discriminant v = ground arith

-- `TpmCc::try_from` accepts exactly the discriminants, and returns the variant that has them.
pub TpmCc-try_from_iff :
    (raw : ℕ) (v : TpmCc) → (try_from 4 discriminant variants raw ≡ ok v) ↔ (discriminant v ≡ raw)
TpmCc-try_from_iff = try_from_iff 4 discriminant variants find-discriminant
