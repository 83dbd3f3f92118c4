-- ===== src/Protocol/Codec/Roundtrip.antt =====
-- What the codec laws give a caller that marshals into a writer and reads the bytes back.
use tpm2_library.Common.{ℕ, ◌+◌, ◌≤◌, ◌<◌, List, ◌++◌, length, All, ok, err, ◌≡◌, sym, arith}
use tpm2_library.Protocol.Error.{TpmError}
use tpm2_library.Protocol.Codec.{Codec, IsCodec}
use tpm2_library.Protocol.Integer.Bytes.{IsByte}
use tpm2_library.Protocol.Writer.{TpmWriter, as_bytes, put}
use tpm2_library.Protocol.Writer.Append.{IsValid, as_bytes-put}

module _ {A : Type 0} (c : Codec A) (encode : A → List ℕ) (IsWf : A → Type 0)
    (lawful : IsCodec c encode IsWf) where
  pub written :
      (x : A) (w : TpmWriter)
      → IsWf x
      → IsValid w
      → w.cursor + c.len x ≤ length w.buffer
      → (bytes : List ℕ) × (c.marshal x w ≡ (ok tt, put bytes w))
        × (length bytes ≡ c.len x)
        × (as_bytes (put bytes w) ≡ as_bytes w ++ bytes)
        × ((rest : List ℕ) → c.unmarshal (bytes ++ rest) ≡ ok (x, rest))
  written x w f v room =
      let size = lawful.len_encode x f in
      let room' : w.cursor + length (encode x) ≤ length w.buffer = omega (arith, size) in
      (
        encode x,
        (lawful.emits x f).fits w v room',
        sym size,
        as_bytes-put (encode x) w v room',
        λ rest. lawful.reads x rest f,
      )

  pub rejected :
      (x : A) (w : TpmWriter)
      → IsWf x
      → IsValid w
      → length w.buffer < w.cursor + c.len x
      → (e : TpmError) × (part : List ℕ) × (c.marshal x w ≡ (err e, put part w))
        × (w.cursor + length part ≤ length w.buffer)
  rejected x w f v full =
      let size = lawful.len_encode x f in
      let o = (lawful.emits x f).overflows w v (omega (arith, size)) in
      (o.error, o.written, o.result, o.room)

  pub canonical :
      (buf : List ℕ) (x : A) (rest : List ℕ) (w : TpmWriter)
      → All IsByte buf
      → c.unmarshal buf ≡ ok (x, rest)
      → IsValid w
      → w.cursor + c.len x ≤ length w.buffer
      → (bytes : List ℕ) × (buf ≡ bytes ++ rest)
        × (length bytes ≤ c.max_size)
        × (c.marshal x w ≡ (ok tt, put bytes w))
  canonical buf x rest w h e v room =
      let (f, split) = lawful.sound buf x rest h e in
      let size = lawful.len_encode x f in
      (
        encode x,
        split,
        omega (arith, size, lawful.len_bound x f),
        (lawful.emits x f).fits w v (omega (arith, size)),
      )
