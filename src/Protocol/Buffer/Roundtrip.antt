-- ===== src/Protocol/Buffer/Roundtrip.antt =====
-- crates/protocol/src/basic/buffer.rs: what a caller of `TpmBuffer` relies on when it marshals
-- into a writer and reads bytes back.
use tpm2_library.Common.{ℕ, ◌+◌, ◌≤◌, ◌<◌, List, ◌++◌, length, All, ok, err, ◌≡◌}
use tpm2_library.Protocol.Error.{TpmError}
use tpm2_library.Protocol.Integer.Bytes.{IsByte}
use tpm2_library.Protocol.Writer.{TpmWriter, as_bytes, put}
use tpm2_library.Protocol.Writer.Append.{IsValid}
use tpm2_library.Protocol.Codec.Roundtrip.{written, rejected, canonical}
use tpm2_library.Protocol.Buffer.{TpmBuffer, max_size, len, marshal, unmarshal}
use tpm2_library.Protocol.Buffer.Laws.{codec, encode, IsWf, TpmBuffer-IsCodec}

module _ (capacity : ℕ) where
  -- With room for `len` bytes, marshaling a buffer that the operations can make succeeds: it
  -- appends exactly `len` bytes to the writer, and unmarshaling those bytes, whatever follows
  -- them, gives back the same value and what follows.
  pub TpmBuffer-roundtrip :
      (x : TpmBuffer capacity) (w : TpmWriter)
      → IsWf capacity x
      → IsValid w
      → w.cursor + len capacity x ≤ length w.buffer
      → (bytes : List ℕ) × (marshal capacity x w ≡ (ok tt, put bytes w))
        × (length bytes ≡ len capacity x)
        × (as_bytes (put bytes w) ≡ as_bytes w ++ bytes)
        × ((rest : List ℕ) → unmarshal capacity (bytes ++ rest) ≡ ok (x, rest))
  TpmBuffer-roundtrip =
      written (codec capacity) (encode capacity) (IsWf capacity) (TpmBuffer-IsCodec capacity)

  -- With room for fewer than `len` bytes, marshaling a buffer that the operations can make fails,
  -- and what it has written by then stays inside the writer's buffer.
  pub TpmBuffer-overflow :
      (x : TpmBuffer capacity) (w : TpmWriter)
      → IsWf capacity x
      → IsValid w
      → length w.buffer < w.cursor + len capacity x
      → (e : TpmError) × (part : List ℕ) × (marshal capacity x w ≡ (err e, put part w))
        × (w.cursor + length part ≤ length w.buffer)
  TpmBuffer-overflow =
      rejected (codec capacity) (encode capacity) (IsWf capacity) (TpmBuffer-IsCodec capacity)

  -- Whatever unmarshal accepts is the only encoding of the value it returns: marshaling the value
  -- appends exactly the bytes that were consumed, at most `SIZE` of them.
  pub TpmBuffer-canonical :
      (buf : List ℕ) (x : TpmBuffer capacity) (rest : List ℕ) (w : TpmWriter)
      → All IsByte buf
      → unmarshal capacity buf ≡ ok (x, rest)
      → IsValid w
      → w.cursor + len capacity x ≤ length w.buffer
      → (bytes : List ℕ) × (buf ≡ bytes ++ rest)
        × (length bytes ≤ max_size capacity)
        × (marshal capacity x w ≡ (ok tt, put bytes w))
  TpmBuffer-canonical =
      canonical (codec capacity) (encode capacity) (IsWf capacity) (TpmBuffer-IsCodec capacity)
