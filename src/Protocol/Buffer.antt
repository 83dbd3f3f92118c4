-- ===== src/Protocol/Buffer.antt =====
-- crates/protocol/src/basic/buffer.rs: a TPM2B, a byte string behind its 16-bit length.
-- `Buffer.Tpm2b` has the borrowed view, this file the owned `TpmBuffer<CAPACITY>`, whose storage
-- `Slots` models. A method on `&mut self` returns the value as it leaves it, and its result.
pub mod Tpm2b
pub mod Refine
pub mod Laws
pub mod Roundtrip
use tpm2_library.Common.{
  ℕ, ◌+◌, ◌-◌, ◌*◌, List, [], ◌∷◌, take, set, length, Option, none, some, Bool, ◌||◌, ltb, leb,
  ◌==◌, if◌then◌else◌, ok, err, ◌>>=◌, Result,
}
use tpm2_library.Common.Nat.{checked_add}
use tpm2_library.Protocol.Error.{TpmError, TpmResult, buffer_overflow}
use tpm2_library.Protocol.Writer.{Marshal, ◌>>◌, write_bytes}
use tpm2_library.Protocol.Slots.{write_each, initialized, uninit}
use tpm2_library.Protocol.Integer
use tpm2_library.Protocol.Buffer.Tpm2b

abbrev pub u16_max : ℕ
u16_max = 0xffff

pub record TpmBuffer (capacity : ℕ) : Type 0 where
  pub size : ℕ
  pub data_cells : List (Option ℕ)

module _ (capacity : ℕ) where
  unfoldable pub new : TpmBuffer capacity
  new = record { size = 0; data_cells = uninit capacity }

  unfoldable pub try_push : TpmBuffer capacity → ℕ → TpmBuffer capacity × TpmResult (Unit {0})
  try_push b byte =
      if leb capacity b.size || b.size == u16_max
      then (b, err (buffer_overflow b.size 1 (capacity - b.size)))
      else (record { size = b.size + 1; data_cells = set b.data_cells b.size (some byte) }, ok tt)

  -- The body behind `let new_len = current_len.checked_add(slice.len())`.
  unfoldable pub extend_to :
      TpmBuffer capacity → List ℕ → Option ℕ → TpmBuffer capacity × TpmResult (Unit {0})
  extend_to b slice none = (b, err (buffer_overflow b.size (length slice) (capacity - b.size)))
  extend_to b slice (some new_len) =
      if ltb capacity new_len
      then (b, err (buffer_overflow b.size (length slice) (capacity - b.size)))
      else if ltb u16_max new_len
      then (b, err (buffer_overflow b.size (length slice) (u16_max - b.size)))
      else (record { size = new_len; data_cells = write_each b.data_cells b.size slice }, ok tt)

  unfoldable pub try_extend_from_slice :
      TpmBuffer capacity → List ℕ → TpmBuffer capacity × TpmResult (Unit {0})
  unfolding extend_to
  try_extend_from_slice b slice = extend_to b slice (checked_add b.size (length slice))

  unfoldable pub deref : TpmBuffer capacity → List ℕ
  deref b = initialized (take b.size b.data_cells)

  unfoldable pub try_from : List ℕ → TpmResult (TpmBuffer capacity)
  unfolding new try_extend_from_slice
  try_from slice =
      let (buffer, result) = try_extend_from_slice new slice in result >>= λ done. ok buffer

  abbrev pub max_size : ℕ
  max_size = 2 + capacity

  unfoldable pub len : TpmBuffer capacity → ℕ
  len b = 2 + b.size

  unfoldable pub marshal : TpmBuffer capacity → Marshal
  marshal b = Integer.marshal 2 (Integer.new 2 b.size) >> write_bytes (deref b)

  unfoldable pub unmarshal : List ℕ → TpmResult (TpmBuffer capacity × List ℕ)
  unmarshal buffer = do
    (view, remainder) ← Tpm2b.cast_prefix capacity buffer
    b ← try_from (Tpm2b.payload view)
    ok (b, remainder)
