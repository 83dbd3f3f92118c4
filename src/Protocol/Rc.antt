-- ===== src/Protocol/Rc.antt =====
-- crates/protocol/src/data/enum/rc.rs: the response codes. A Format-1 code packs an error number
-- and the index of a parameter, a handle or a session into the bits of one u32.
pub mod Base
pub mod Lookup
pub mod Bits
pub mod Laws
pub mod Canonical
use Prim.Native.Nat.{bit_and, bit_or}
use tpm2_library.Common.{
  ℕ, zero, suc, ◌+◌, ◌-◌, ◌*◌, ◌/◌, ◌^◌, List, Bool, true, false, not, ◌&&◌, ltb, leb, ◌==◌,
  if◌then◌else◌, Option, none, some, ok, err, map_err, reject_if, ◌>>=◌, ◌>>◌,
}
use tpm2_library.Protocol.Error.{TpmError, TpmResult, invalid_rc}
use tpm2_library.Protocol.Writer.{Marshal}
use tpm2_library.Protocol.Integer
use tpm2_library.Protocol.Enum
use tpm2_library.Protocol.Rc.Base.{TpmRcBase, discriminant, variants, rc_fmt1, rc_warn}

abbrev pub rc_p_bit : ℕ
rc_p_bit = 2 ^ 6

abbrev pub rc_n_shift : ℕ
rc_n_shift = 8

abbrev pub rc_fmt1_error_mask : ℕ
rc_fmt1_error_mask = 0x3f

abbrev pub rc_n_mask : ℕ
rc_n_mask = 0xf

abbrev pub rc_fmt1_valid_mask : ℕ
rc_fmt1_valid_mask =
    bit_or (bit_or (bit_or rc_fmt1 rc_p_bit) rc_fmt1_error_mask) (rc_n_mask * 2 ^ rc_n_shift)

abbrev pub max_handle_index : ℕ
max_handle_index = 7

abbrev pub session_index_offset : ℕ
session_index_offset = 8

pub data TpmRcIndex : Type 0 where
  parameter handle session : ℕ → TpmRcIndex

pub record TpmRcFmt1 : Type 0 where
  pub base : TpmRcBase
  pub index : Option TpmRcIndex

pub data TpmRc : Type 0 where
  fmt0 : TpmRcBase → TpmRc
  fmt1 : TpmRcFmt1 → TpmRc
  warn : TpmRcBase → TpmRc

abbrev pub is_parameter : TpmRcIndex → Bool
is_parameter (parameter n) = true
is_parameter (handle n) = false
is_parameter (session n) = false

abbrev pub number : TpmRcIndex → ℕ
number (parameter n) = n
number (handle n) = n
number (session n) = n + session_index_offset

-- `value |= TPM_RC_P_BIT` under its test, then `value |= (num & TPM_RC_N_MASK) << TPM_RC_N_SHIFT`.
unfoldable pub add_index : ℕ → Option TpmRcIndex → ℕ
add_index raw none = raw
add_index raw (some index) =
    bit_or (if is_parameter index then bit_or raw rc_p_bit else raw)
      (bit_and (number index) rc_n_mask * 2 ^ rc_n_shift)

unfoldable pub value : TpmRc → ℕ
unfolding add_index
value (fmt0 base) = discriminant base
value (warn base) = discriminant base
value (fmt1 f) = add_index (discriminant f.base) f.index

unfoldable pub base : TpmRc → TpmRcBase
base (fmt0 b) = b
base (warn b) = b
base (fmt1 f) = f.base

unfoldable pub marshal : TpmRc → Marshal
marshal rc = Integer.marshal 4 (Integer.new 4 (value rc))

-- The match on the `P` bit and the number, with the error of a parameter of number 0.
unfoldable pub read_index : TpmError → Bool → ℕ → TpmResult (Option TpmRcIndex)
read_index invalid p n =
    if n == 0
    then (if p then err invalid else ok none)
    else if p
    then ok (some (parameter n))
    else if leb n max_handle_index
    then ok (some (handle n))
    else ok (some (session (n - session_index_offset)))

unfoldable pub try_from_fmt1 : ℕ → TpmResult TpmRc
unfolding read_index
try_from_fmt1 raw = do
  reject_if (not (bit_and raw (2 ^ 32 - 1 - rc_fmt1_valid_mask) == 0)) (invalid_rc 0 raw)
  b ←
      map_err (λ e. invalid_rc 0 raw)
        (Enum.try_from 4 discriminant variants (bit_or rc_fmt1 (bit_and raw rc_fmt1_error_mask)))
  let p = not (bit_and raw rc_p_bit == 0)
  let n = bit_and (raw / 2 ^ rc_n_shift) rc_n_mask
  i ← read_index (invalid_rc 0 raw) p n
  ok (fmt1 (record { base = b; index = i }))

unfoldable pub try_from_fmt0 : ℕ → TpmResult TpmRc
try_from_fmt0 raw = do
  b ← map_err (λ e. invalid_rc 0 raw) (Enum.try_from 4 discriminant variants raw)
  if bit_and raw rc_warn == rc_warn then ok (warn b) else ok (fmt0 b)

unfoldable pub try_from : ℕ → TpmResult TpmRc
unfolding try_from_fmt1 try_from_fmt0
try_from raw = if not (bit_and raw rc_fmt1 == 0) then try_from_fmt1 raw else try_from_fmt0 raw

unfoldable pub unmarshal : List ℕ → TpmResult (TpmRc × List ℕ)
unmarshal buffer = do
  (raw, remainder) ← Integer.unmarshal 4 buffer
  rc ← try_from (Integer.value 4 raw)
  ok (rc, remainder)
