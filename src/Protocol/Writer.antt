-- ===== src/Protocol/Writer.antt =====
-- crates/protocol/src/lib.rs: `TpmWriter`, which fills a caller's buffer from the front, and the
-- marshalers that write through it. A marshaler takes the writer by mutable reference and may fail
-- after it has written a part, so it returns its result and the writer as it left it.
pub mod Append
pub mod Laws
use tpm2_library.Common.{
  ℕ, ◌+◌, ◌-◌, List, ◌∷◌, [], ◌++◌, length, take, drop, ok, err, Option, none, some, ltb,
  if◌then◌else◌, ◌==◌, Bool,
}
use tpm2_library.Common.Nat.{checked_add}
use tpm2_library.Protocol.Error.{TpmError, TpmResult, buffer_overflow}

pub record TpmWriter : Type 0 where
  pub buffer : List ℕ
  pub cursor : ℕ

unfoldable pub new : List ℕ → TpmWriter
new buffer = record { buffer = buffer; cursor = 0 }

unfoldable pub as_bytes : TpmWriter → List ℕ
as_bytes w = take w.cursor w.buffer

abbrev pub Marshal : Type 0
Marshal = TpmWriter → TpmResult (Unit {0}) × TpmWriter

abbrev pub pure : Marshal
pure w = (ok tt, w)

abbrev pub fail : TpmError → Marshal
fail e w = (err e, w)

abbrev pub and_then : Marshal → TpmResult (Unit {0}) × TpmWriter → TpmResult (Unit {0}) × TpmWriter
and_then second (ok done, w) = second w
and_then second (err e, w) = (err e, w)

-- `first?; second`
infixr 5 ◌>>◌
abbrev pub ◌>>◌ : Marshal → Marshal → Marshal
◌>>◌ first second w = and_then second (first w)

-- `self.buffer[self.cursor..end].copy_from_slice(bytes); self.cursor = end`
abbrev pub put : List ℕ → TpmWriter → TpmWriter
put bytes w = record {
  buffer = take w.cursor w.buffer ++ (bytes ++ drop (w.cursor + length bytes) w.buffer);
  cursor = w.cursor + length bytes;
}

write_to : List ℕ → TpmWriter → Option ℕ → TpmResult (Unit {0}) × TpmWriter
write_to bytes w none = (err (buffer_overflow w.cursor (length bytes) 0), w)
write_to bytes w (some end) =
    if ltb (length w.buffer) end
    then (err (buffer_overflow w.cursor (length bytes) (length w.buffer - w.cursor)), w)
    else (ok tt, put bytes w)

unfoldable pub write_bytes : List ℕ → Marshal
unfolding write_to
write_bytes bytes w = write_to bytes w (checked_add w.cursor (length bytes))

-- `for item in items { item.marshal(writer)?; }`
unfoldable pub marshal_each {ℓ} : {A : Type ℓ} → (A → Marshal) → List A → Marshal
marshal_each marshal [] = pure
marshal_each marshal (x ∷ xs) = marshal x >> marshal_each marshal xs
