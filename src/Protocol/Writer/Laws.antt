-- ===== src/Protocol/Writer/Laws.antt =====
-- What `TpmWriter::write_bytes` does with and without room.
use tpm2_library.Common.{
  ℕ, ◌+◌, ◌≤◌, ◌<◌, List, ◌++◌, length, ok, err, ◌≡◌, refl, arith, length-append,
}
use tpm2_library.Protocol.Error.{TpmError}
use tpm2_library.Protocol.Writer.{TpmWriter, as_bytes, write_bytes, ◌>>◌}
use tpm2_library.Protocol.Writer.Append.{
  IsValid, write_bytes-Emits, as_bytes-put, put-IsValid, length-put, write_bytes_fails, >>-Emits,
}

-- With room, the bytes are appended to what the writer holds; the buffer keeps its length and the
-- writer stays valid.
pub write_bytes_appends :
    (bytes : List ℕ) (w : TpmWriter)
    → IsValid w
    → w.cursor + length bytes ≤ length w.buffer
    → ((write_bytes bytes w).0 ≡ ok tt)
      × (as_bytes (write_bytes bytes w).1 ≡ as_bytes w ++ bytes)
      × (length ((write_bytes bytes w).1.buffer) ≡ length w.buffer)
      × IsValid (write_bytes bytes w).1
write_bytes_appends bytes w v h =
    rw ((write_bytes-Emits bytes).fits w v h)
      (refl, as_bytes-put bytes w v h, length-put bytes w h, put-IsValid bytes w v h)

-- Without room nothing is written: the call fails and leaves the writer as it was.
pub write_bytes_rejects :
    (bytes : List ℕ) (w : TpmWriter)
    → length w.buffer < w.cursor + length bytes
    → (e : TpmError) × (write_bytes bytes w ≡ (err e, w))
write_bytes_rejects = write_bytes_fails

-- Writing one string and then another, both of which fit, is writing them joined.
pub write_bytes_twice :
    (a b : List ℕ) (w : TpmWriter)
    → IsValid w
    → w.cursor + length a + length b ≤ length w.buffer
    → (write_bytes a >> write_bytes b) w ≡ write_bytes (a ++ b) w
write_bytes_twice a b w v h =
    let room : w.cursor + length (a ++ b) ≤ length w.buffer = omega (arith, length-append a b) in
    rw (
      (>>-Emits _ _ a b (write_bytes-Emits a) (write_bytes-Emits b)).fits w v room,
      (write_bytes-Emits (a ++ b)).fits w v room,
    )
