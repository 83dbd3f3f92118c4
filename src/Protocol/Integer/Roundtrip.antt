-- ===== src/Protocol/Integer/Roundtrip.antt =====
-- crates/protocol/src/basic/integer.rs: what a caller of `TpmInt` relies on when it marshals into
-- a writer and reads bytes back.
use tpm2_library.Common.{ℕ, ◌+◌, ◌≤◌, ◌<◌, List, ◌++◌, length, All, ok, err, ◌≡◌}
use tpm2_library.Protocol.Error.{TpmError}
use tpm2_library.Protocol.Integer.Bytes.{IsByte}
use tpm2_library.Protocol.Writer.{TpmWriter, as_bytes, put}
use tpm2_library.Protocol.Writer.Append.{IsValid}
use tpm2_library.Protocol.Codec.Roundtrip.{written, rejected, canonical}
use tpm2_library.Protocol.Integer.{TpmInt, len, marshal, unmarshal}
use tpm2_library.Protocol.Integer.Laws.{codec, IsWf, TpmInt-IsCodec}

module _ (n : ℕ) where
  -- With room for `len` bytes, marshaling an integer of `n` bytes succeeds: it appends exactly
  -- `len` bytes to the writer, and unmarshaling those bytes, whatever follows them, gives back the
  -- same value and what follows.
  pub TpmInt-roundtrip :
      (x : TpmInt n) (w : TpmWriter)
      → IsWf x
      → IsValid w
      → w.cursor + len n x ≤ length w.buffer
      → (bytes : List ℕ) × (marshal n x w ≡ (ok tt, put bytes w))
        × (length bytes ≡ len n x)
        × (as_bytes (put bytes w) ≡ as_bytes w ++ bytes)
        × ((rest : List ℕ) → unmarshal n (bytes ++ rest) ≡ ok (x, rest))
  TpmInt-roundtrip = written (codec n) (λ i. i.bytes) IsWf (TpmInt-IsCodec n)

  -- With room for fewer than `len` bytes, marshaling an integer of `n` bytes fails, and what it
  -- has written by then stays inside the writer's buffer.
  pub TpmInt-overflow :
      (x : TpmInt n) (w : TpmWriter)
      → IsWf x
      → IsValid w
      → length w.buffer < w.cursor + len n x
      → (e : TpmError) × (part : List ℕ) × (marshal n x w ≡ (err e, put part w))
        × (w.cursor + length part ≤ length w.buffer)
  TpmInt-overflow = rejected (codec n) (λ i. i.bytes) IsWf (TpmInt-IsCodec n)

  -- Whatever unmarshal accepts is the only encoding of the value it returns: marshaling the value
  -- appends exactly the bytes that were consumed, at most `SIZE` of them.
  pub TpmInt-canonical :
      (buf : List ℕ) (x : TpmInt n) (rest : List ℕ) (w : TpmWriter)
      → All IsByte buf
      → unmarshal n buf ≡ ok (x, rest)
      → IsValid w
      → w.cursor + len n x ≤ length w.buffer
      → (bytes : List ℕ) × (buf ≡ bytes ++ rest)
        × (length bytes ≤ n)
        × (marshal n x w ≡ (ok tt, put bytes w))
  TpmInt-canonical = canonical (codec n) (λ i. i.bytes) IsWf (TpmInt-IsCodec n)
