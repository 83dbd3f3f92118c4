-- ===== src/Protocol/Tests.antt =====
-- The theorems on the writer, the fixed-size views and the integers of crates/protocol, applied to
-- small concrete inputs.
pub mod Containers
pub mod Codes
pub mod Frames
use tpm2_library.Common.{
  ℕ, ◌+◌, ◌-◌, ◌≤◌, ◌<◌, ◌^◌, List, [], ◌∷◌, ◌++◌, map, length, drop, replicate, All, Option, some,
  none, ok, err, Result, ◌≡◌, ◌↔◌, refl, arith, inl,
}
use tpm2_library.Common.Nat.{saturating_add}
use mathlib.Core.List.{flatten}
use tpm2_library.Protocol.Error
use tpm2_library.Protocol.Error.{TpmError, unexpected_end, too_many_items, rebase, TpmResult}
use tpm2_library.Protocol.Error.Rebase.{payload, rebase_nested}
use tpm2_library.Protocol.Writer
use tpm2_library.Protocol.Writer.{TpmWriter, as_bytes, put, write_bytes, ◌>>◌}
use tpm2_library.Protocol.Writer.Append.{IsValid}
use tpm2_library.Protocol.Writer.Laws.{write_bytes_appends, write_bytes_rejects, write_bytes_twice}
use tpm2_library.Protocol.WireBytes
use tpm2_library.Protocol.WireBytes.Split.{cast_iff, cast_prefix_iff}
use tpm2_library.Protocol.Integer
use tpm2_library.Protocol.Integer.{TpmInt, value}
use tpm2_library.Protocol.Integer.Laws.{value-new, new-IsWf, TpmInt-IsCodec}
use tpm2_library.Protocol.Integer.Laws
use tpm2_library.Protocol.Integer.Bytes.{IsByte}
use tpm2_library.Protocol.Integer.Roundtrip.{TpmInt-roundtrip, TpmInt-overflow, TpmInt-canonical}

-- A writer over eight bytes with two of them written, and one that is full but for a byte.
abbrev pub roomy : TpmWriter
roomy = record { buffer = 1 ∷ 2 ∷ 0 ∷ 0 ∷ 0 ∷ 0 ∷ 0 ∷ 0 ∷ 0 ∷ 0 ∷ 0 ∷ 0 ∷ []; cursor = 2 }

abbrev pub tight : TpmWriter
tight = record { buffer = 1 ∷ 2 ∷ 0 ∷ []; cursor = 2 }

pub roomy-IsValid : IsValid roomy
roomy-IsValid = record { within = omega arith; addressable = omega arith }

pub tight-IsValid : IsValid tight
tight-IsValid = record { within = omega arith; addressable = omega arith }

rebase_nested_example :
    (payload (rebase (unexpected_end 3 4 2) 10) ≡ (10, 4 ∷ (2 ∷ [])))
    × (Error.offset (rebase (unexpected_end 3 4 2) 10)
        ≡ saturating_add (Error.offset (unexpected_end 3 4 2)) 10)
    × (rebase (rebase (unexpected_end 3 4 2) 10) (2 ^ 64 - 5)
        ≡ rebase (unexpected_end 3 4 2) (saturating_add 10 (2 ^ 64 - 5)))
unfolding payload
rebase_nested_example = rebase_nested (unexpected_end 3 4 2) 10 (2 ^ 64 - 5)

abbrev five_six : List ℕ
five_six = 5 ∷ 6 ∷ []

abbrev five : List ℕ
five = 5 ∷ []

abbrev pub half : TpmInt 2
half = record { bytes = 0x12 ∷ 0x34 ∷ [] }

pub half-IsWf : Laws.IsWf half
half-IsWf = record { width = refl; are_bytes = (omega arith, (omega arith, tt)) }

len-half : Integer.len 2 half ≡ 2
unfolding Integer.len
len-half = refl

TpmInt-overflow_example :
    (e : TpmError) × (part : List ℕ) × (Integer.marshal 2 half tight ≡ (err e, put part tight))
    × (2 + length part ≤ 3)
TpmInt-overflow_example =
    TpmInt-overflow 2 half tight half-IsWf tight-IsValid (omega (arith, len-half))

read_half : Integer.unmarshal 2 (0x12 ∷ 0x34 ∷ 9 ∷ []) ≡ ok (half, 9 ∷ [])
unfolding Integer.unmarshal WireBytes.cast_prefix WireBytes.validate_prefix
read_half = refl
