-- ===== src/Protocol/Tests/Containers.antt =====
-- The theorems on the buffers and lists of crates/protocol, applied to small concrete inputs.
use tpm2_library.Common.{
  ℕ, suc, ◌+◌, ◌≤◌, List, [], ◌∷◌, ◌++◌, map, length, ok, err, ◌≡◌, refl, arith,
}
use mathlib.Core.List.{flatten}
use tpm2_library.Protocol.Error.{TpmError, TpmResult}
use tpm2_library.Protocol.Writer.{as_bytes, put}
use tpm2_library.Protocol.Tests.{roomy, roomy-IsValid, tight, tight-IsValid, half, half-IsWf}
use tpm2_library.Protocol.WireBytes
use tpm2_library.Protocol.Slots
use tpm2_library.Protocol.WireBytes.Split.{cast_prefix_iff}
use tpm2_library.Protocol.Integer
use tpm2_library.Protocol.Integer.{TpmInt}
use tpm2_library.Protocol.Integer.Laws as IntegerLaws
use tpm2_library.Protocol.Integer.Laws.{TpmInt-IsCodec}
use tpm2_library.Protocol.Codec.{Codec}
use tpm2_library.Protocol.Buffer
use tpm2_library.Protocol.Buffer.{TpmBuffer, u16_max}
use tpm2_library.Protocol.Buffer.Refine as BufferRefine
use tpm2_library.Protocol.Buffer.Refine.{
  try_push_appends, try_extend_appends, buffer_full, try_from_iff,
}
use tpm2_library.Protocol.Buffer.Laws as BufferLaws
use tpm2_library.Protocol.Buffer.Roundtrip.{
  TpmBuffer-roundtrip, TpmBuffer-overflow, TpmBuffer-canonical,
}
use tpm2_library.Protocol.Buffer.Tpm2b
use tpm2_library.Protocol.Buffer.Tpm2b.Framing.{framed, cast_prefix-framed, cast_prefix_sound}
use tpm2_library.Protocol.Lists
use tpm2_library.Protocol.Lists.{TpmList}
use tpm2_library.Protocol.Lists.Refine as ListsRefine
use tpm2_library.Protocol.Lists.Refine.{list_extend_appends, push_is_extend, list_extend_rejects}
use tpm2_library.Protocol.Lists.Laws as ListsLaws
use tpm2_library.Protocol.Lists.Roundtrip.{TpmList-roundtrip, TpmList-overflow, TpmList-canonical}
use tpm2_library.Protocol.Lists.Tpml
use tpm2_library.Protocol.Lists.Tpml.Items.{Splits, cast_items-collect}

-- A buffer of four bytes that holds two.
abbrev two : TpmBuffer 4
two = BufferRefine.holding 4 (7 ∷ 9 ∷ [])

two-IsWf : BufferLaws.IsWf 4 two
two-IsWf = record {
  content = 7 ∷ 9 ∷ [];
  fits = (omega arith, omega arith);
  are_bytes = (omega arith, (omega arith, tt));
  holds = refl;
}

len-two : Buffer.len 4 two ≡ 4
unfolding Buffer.len
len-two = refl

TpmBuffer-roundtrip_example :
    (bytes : List ℕ) × (Buffer.marshal 4 two roomy ≡ (ok tt, put bytes roomy))
    × (length bytes ≡ Buffer.len 4 two)
    × (as_bytes (put bytes roomy) ≡ as_bytes roomy ++ bytes)
    × ((rest : List ℕ) → Buffer.unmarshal 4 (bytes ++ rest) ≡ ok (two, rest))
TpmBuffer-roundtrip_example =
    TpmBuffer-roundtrip 4 two roomy two-IsWf roomy-IsValid (omega (arith, len-two))

TpmBuffer-overflow_example :
    (e : TpmError) × (part : List ℕ) × (Buffer.marshal 4 two tight ≡ (err e, put part tight))
    × (2 + length part ≤ 3)
TpmBuffer-overflow_example =
    TpmBuffer-overflow 4 two tight two-IsWf tight-IsValid (omega (arith, len-two))

read_two : Buffer.unmarshal 4 (0 ∷ 2 ∷ 7 ∷ 9 ∷ 5 ∷ []) ≡ ok (two, 5 ∷ [])
unfolding Buffer.unmarshal Tpm2b.cast_prefix Tpm2b.validate_prefix Tpm2b.read_size Tpm2b.payload
    Buffer.try_from Integer.from_be_bytes Slots.write_each
read_two = refl

TpmBuffer-canonical_example :
    (bytes : List ℕ) × ((0 ∷ 2 ∷ 7 ∷ 9 ∷ 5 ∷ []) ≡ bytes ++ (5 ∷ []))
    × (length bytes ≤ Buffer.max_size 4)
    × (Buffer.marshal 4 two roomy ≡ (ok tt, put bytes roomy))
TpmBuffer-canonical_example =
    TpmBuffer-canonical 4 (0 ∷ 2 ∷ 7 ∷ 9 ∷ 5 ∷ []) two (5 ∷ []) roomy
      (omega arith, (omega arith, (omega arith, (omega arith, (omega arith, tt))))) read_two
      roomy-IsValid (omega (arith, len-two))

cast_prefix-framed_example :
    Tpm2b.cast_prefix 4 (framed (7 ∷ 9 ∷ []) ++ (5 ∷ [])) ≡ ok (framed (7 ∷ 9 ∷ []), 5 ∷ [])
cast_prefix-framed_example = cast_prefix-framed 4 (7 ∷ 9 ∷ []) (5 ∷ []) (omega arith) (omega arith)

abbrev seven : List ℕ
seven = 0 ∷ 1 ∷ 7 ∷ []

abbrev seven_five : List ℕ
seven_five = 0 ∷ 1 ∷ 7 ∷ 5 ∷ []

cast_two : Tpm2b.cast_prefix 4 seven_five ≡ ok (seven, 5 ∷ [])
unfolding Tpm2b.cast_prefix Tpm2b.validate_prefix Tpm2b.read_size Integer.from_be_bytes
cast_two = refl

cast_prefix_sound_example :
    (xs : List ℕ) × (seven ≡ framed xs)
    × (seven_five ≡ seven ++ (5 ∷ []))
    × (length xs ≤ 4)
    × (length xs ≤ 0xffff)
cast_prefix_sound_example =
    cast_prefix_sound 4 seven_five seven (5 ∷ [])
      (omega arith, (omega arith, (omega arith, (omega arith, tt)))) cast_two

try_extend_appends_example :
    (Buffer.try_extend_from_slice 4 two (5 ∷ 6 ∷ [])
      ≡ (BufferRefine.holding 4 (7 ∷ 9 ∷ 5 ∷ 6 ∷ []), ok tt))
    × (Buffer.deref 4 (Buffer.try_extend_from_slice 4 two (5 ∷ 6 ∷ [])).0 ≡ 7 ∷ 9 ∷ 5 ∷ 6 ∷ [])
try_extend_appends_example =
    try_extend_appends 4 (7 ∷ 9 ∷ []) (5 ∷ 6 ∷ []) (omega arith) (omega arith)

-- A list of at most three 16-bit integers that holds one.
abbrev one : TpmList (TpmInt 2) 3
one = ListsRefine.holding 3 (half ∷ [])

abbrev int_codec : Codec (TpmInt 2)
int_codec = IntegerLaws.codec 2

abbrev int_encode : TpmInt 2 → List ℕ
int_encode i = i.bytes

one-IsWfList : ListsLaws.IsWfList int_codec int_encode IntegerLaws.IsWf (TpmInt-IsCodec 2) 3 one
one-IsWfList = record {
  content = half ∷ [];
  fits = omega arith;
  countable = omega arith;
  are_wf = (half-IsWf, tt);
  holds = refl;
}

len-one : Lists.encoded_len int_codec 3 one ≡ 6
unfolding Lists.encoded_len Lists.deref Integer.len
len-one = refl

TpmList-roundtrip_example :
    (bytes : List ℕ) × (Lists.marshal int_codec 3 one roomy ≡ (ok tt, put bytes roomy))
    × (length bytes ≡ Lists.encoded_len int_codec 3 one)
    × (as_bytes (put bytes roomy) ≡ as_bytes roomy ++ bytes)
    × ((rest : List ℕ) → Lists.unmarshal int_codec 3 (bytes ++ rest) ≡ ok (one, rest))
TpmList-roundtrip_example =
    TpmList-roundtrip int_codec int_encode IntegerLaws.IsWf (TpmInt-IsCodec 2) 3 one roomy
      one-IsWfList roomy-IsValid (omega (arith, len-one))

TpmList-overflow_example :
    (e : TpmError) × (part : List ℕ) × (Lists.marshal int_codec 3 one tight
      ≡ (err e, put part tight))
    × (2 + length part ≤ 3)
TpmList-overflow_example =
    TpmList-overflow int_codec int_encode IntegerLaws.IsWf (TpmInt-IsCodec 2) 3 one tight
      one-IsWfList tight-IsValid (omega (arith, len-one))

read_one : Lists.unmarshal int_codec 3 (0 ∷ 0 ∷ 0 ∷ 1 ∷ 0x12 ∷ 0x34 ∷ []) ≡ ok (one, [])
unfolding Lists.unmarshal Lists.read_items Integer.unmarshal Integer.value WireBytes.cast_prefix
    WireBytes.validate_prefix Lists.try_push Lists.new Integer.from_be_bytes Integer.from_digits
read_one = refl

TpmList-canonical_example :
    (bytes : List ℕ) × ((0 ∷ 0 ∷ 0 ∷ 1 ∷ 0x12 ∷ 0x34 ∷ []) ≡ bytes ++ [])
    × (length bytes ≤ Lists.max_size int_codec 3)
    × (Lists.marshal int_codec 3 one roomy ≡ (ok tt, put bytes roomy))
TpmList-canonical_example =
    TpmList-canonical int_codec int_encode IntegerLaws.IsWf (TpmInt-IsCodec 2) 3
      (0 ∷ 0 ∷ 0 ∷ 1 ∷ 0x12 ∷ 0x34 ∷ []) one [] roomy
      (omega arith, (omega arith, (omega arith, (omega arith, (omega arith, (omega arith, tt))))))
      read_one roomy-IsValid (omega (arith, len-one))

-- Items of one byte.
abbrev byte_item : List ℕ → TpmResult (List ℕ × List ℕ)
byte_item buf = WireBytes.cast_prefix 1 buf

byte_item-Splits : Splits byte_item
byte_item-Splits buf item tail e = ((cast_prefix_iff 1 buf item tail).0 e).1

abbrev seven_nine : List ℕ
seven_nine = 0 ∷ 0 ∷ 0 ∷ 2 ∷ 7 ∷ 9 ∷ []

cast_list : Tpml.cast_items byte_item 3 seven_nine ≡ ok seven_nine
unfolding Tpml.cast_items Tpml.validate_items Tpml.validate_prefix_items Tpml.validate_header
    Tpml.read_count Tpml.walk_items Integer.from_be_bytes Integer.from_digits WireBytes.cast_prefix
    WireBytes.validate_prefix
cast_list = refl

cast_items-collect_example :
    (seven_nine ≡ seven_nine)
    × (Tpml.count seven_nine ≤ 3)
    × (its : List (List ℕ)) × (Tpml.collect byte_item
          (suc (Tpml.count seven_nine))
          (Tpml.items seven_nine)
        ≡ map ok its)
    × (length its ≡ Tpml.count seven_nine)
    × (Tpml.items_bytes seven_nine ≡ flatten its)
cast_items-collect_example =
    cast_items-collect byte_item byte_item-Splits 3 seven_nine seven_nine cast_list
