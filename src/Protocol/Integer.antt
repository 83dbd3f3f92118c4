-- ===== src/Protocol/Integer.antt =====
-- crates/protocol/src/basic/integer.rs: `TpmInt<T, N>`, an integer kept as its `n` big-endian
-- bytes. `T::to_be_bytes` and `T::from_be_bytes` are those of Rust's unsigned integers; the model
-- covers the unsigned types.
pub mod Bytes
pub mod Laws
pub mod Roundtrip
use tpm2_library.Common.{
  ℕ, zero, suc, ◌+◌, ◌*◌, ◌/◌, ◌%◌, ◌^◌, ◌<◌, List, [], ◌∷◌, ◌++◌, Result, ok, err, Option, none,
  some, ltb, if◌then◌else◌, ◌>>=◌, length, Bool, compare, Ordering,
}
use tpm2_library.Protocol.Error.{TpmResult}
use tpm2_library.Protocol.Writer.{Marshal, write_bytes}
use tpm2_library.Protocol.WireBytes

-- The value of a sequence of bytes, most significant first, behind the digits `acc`.
unfoldable pub from_digits : ℕ → List ℕ → ℕ
from_digits acc [] = acc
from_digits acc (b ∷ bs) = from_digits (acc * 256 + b) bs

unfoldable pub from_be_bytes : List ℕ → ℕ
unfolding from_digits
from_be_bytes bs = from_digits 0 bs

-- The `n` lowest bytes of a value, most significant first.
unfoldable pub to_be_bytes : ℕ → ℕ → List ℕ
to_be_bytes zero v = []
to_be_bytes (suc n) v = to_be_bytes n (v / 256) ++ (v % 256 ∷ [])

pub record TpmInt (n : ℕ) : Type 0 where
  pub bytes : List ℕ

module _ (n : ℕ) where
  unfoldable pub new : ℕ → TpmInt n
  new v = record { bytes = to_be_bytes n v }

  unfoldable pub value : TpmInt n → ℕ
  value i = from_be_bytes i.bytes

  unfoldable pub cmp : TpmInt n → TpmInt n → Ordering
  unfolding value
  cmp a b = compare (value a) (value b)

  -- `T::try_from(value).map(Self::from)`
  unfoldable pub try_from : ℕ → Option (TpmInt n)
  unfolding new
  try_from v = if ltb v (256 ^ n) then some (new v) else none

  unfoldable pub cast : List ℕ → TpmResult (List ℕ)
  cast buf = WireBytes.cast n buf

  unfoldable pub cast_prefix : List ℕ → TpmResult (List ℕ × List ℕ)
  cast_prefix buf = WireBytes.cast_prefix n buf

  unfoldable pub len : TpmInt n → ℕ
  len i = n

  unfoldable pub marshal : TpmInt n → Marshal
  marshal i = write_bytes i.bytes

  unfoldable pub unmarshal : List ℕ → TpmResult (TpmInt n × List ℕ)
  unmarshal buffer = do
    (view, remainder) ← WireBytes.cast_prefix n buffer
    ok (record { bytes = view }, remainder)
