-- ===== src/Protocol/Lists/Roundtrip.antt =====
-- crates/protocol/src/basic/list.rs: what a caller of `TpmList` relies on when it marshals into a
-- writer and reads bytes back.
use tpm2_library.Common.{ℕ, ◌+◌, ◌≤◌, ◌<◌, List, ◌++◌, length, All, ok, err, ◌≡◌}
use tpm2_library.Protocol.Error.{TpmError}
use tpm2_library.Protocol.Integer.Bytes.{IsByte}
use tpm2_library.Protocol.Writer.{TpmWriter, as_bytes, put}
use tpm2_library.Protocol.Writer.Append.{IsValid}
use tpm2_library.Protocol.Codec.Roundtrip.{written, rejected, canonical}
use tpm2_library.Protocol.Codec.{Codec, IsCodec}
use tpm2_library.Protocol.Lists.{TpmList, max_size, encoded_len, marshal, unmarshal}
use tpm2_library.Protocol.Lists.Laws.{codec, encode_list, IsWfList, TpmList-IsCodec}

module _ {A : Type 0} (c : Codec A) (encode : A → List ℕ) (IsWf : A → Type 0)
    (lawful : IsCodec c encode IsWf) (capacity : ℕ) where
  -- With room for `encoded_len` bytes, marshaling a list that the operations can make succeeds: it
  -- appends exactly `encoded_len` bytes to the writer, and unmarshaling those bytes, whatever
  -- follows them, gives back the same value and what follows.
  pub TpmList-roundtrip :
      (x : TpmList A capacity) (w : TpmWriter)
      → IsWfList c encode IsWf lawful capacity x
      → IsValid w
      → w.cursor + encoded_len c capacity x ≤ length w.buffer
      → (bytes : List ℕ) × (marshal c capacity x w ≡ (ok tt, put bytes w))
        × (length bytes ≡ encoded_len c capacity x)
        × (as_bytes (put bytes w) ≡ as_bytes w ++ bytes)
        × ((rest : List ℕ) → unmarshal c capacity (bytes ++ rest) ≡ ok (x, rest))
  TpmList-roundtrip =
      written (codec c encode IsWf lawful capacity) (encode_list c encode IsWf lawful capacity)
        (IsWfList c encode IsWf lawful capacity) (TpmList-IsCodec c encode IsWf lawful capacity)

  -- With room for fewer than `encoded_len` bytes, marshaling a list that the operations can make
  -- fails, and what it has written by then stays inside the writer's buffer.
  pub TpmList-overflow :
      (x : TpmList A capacity) (w : TpmWriter)
      → IsWfList c encode IsWf lawful capacity x
      → IsValid w
      → length w.buffer < w.cursor + encoded_len c capacity x
      → (e : TpmError) × (part : List ℕ) × (marshal c capacity x w ≡ (err e, put part w))
        × (w.cursor + length part ≤ length w.buffer)
  TpmList-overflow =
      rejected (codec c encode IsWf lawful capacity) (encode_list c encode IsWf lawful capacity)
        (IsWfList c encode IsWf lawful capacity) (TpmList-IsCodec c encode IsWf lawful capacity)

  -- Whatever unmarshal accepts is the only encoding of the value it returns: marshaling the value
  -- appends exactly the bytes that were consumed, at most `SIZE` of them.
  pub TpmList-canonical :
      (buf : List ℕ) (x : TpmList A capacity) (rest : List ℕ) (w : TpmWriter)
      → All IsByte buf
      → unmarshal c capacity buf ≡ ok (x, rest)
      → IsValid w
      → w.cursor + encoded_len c capacity x ≤ length w.buffer
      → (bytes : List ℕ) × (buf ≡ bytes ++ rest)
        × (length bytes ≤ max_size c capacity)
        × (marshal c capacity x w ≡ (ok tt, put bytes w))
  TpmList-canonical =
      canonical (codec c encode IsWf lawful capacity) (encode_list c encode IsWf lawful capacity)
        (IsWfList c encode IsWf lawful capacity) (TpmList-IsCodec c encode IsWf lawful capacity)
