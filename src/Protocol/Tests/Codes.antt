-- ===== src/Protocol/Tests/Codes.antt =====
-- The theorems on the enumerations and the response codes of crates/protocol, applied to concrete
-- codes.
use tpm2_library.Common.{ℕ, List, [], ◌∷◌, some, ok, ◌≡◌, refl, arith}
use tpm2_library.Protocol.Integer
use tpm2_library.Protocol.Integer.{to_be_bytes}
use tpm2_library.Protocol.WireBytes
use tpm2_library.Protocol.Enum
use tpm2_library.Protocol.Constants.Cc
use tpm2_library.Protocol.Constants.Cc.{evict_control, TpmCc-try_from_iff}
use tpm2_library.Protocol.Rc
use tpm2_library.Protocol.Rc.{TpmRc, fmt1, session}
use tpm2_library.Protocol.Rc.Base
use tpm2_library.Protocol.Rc.Base.{bad_auth}
use tpm2_library.Protocol.Rc.Laws.{value-try_from}
use tpm2_library.Protocol.Rc.Canonical.{IsCanonical, try_from-value}

-- The authorization of the second session is wrong.
abbrev bad_session : TpmRc
bad_session = fmt1 (record { base = bad_auth; index = some (session 1) })

read_bad_session : Rc.try_from 0x9a2 ≡ ok bad_session
unfolding Rc.try_from Rc.try_from_fmt1 Rc.read_index Enum.try_from Enum.find Base.discriminant
read_bad_session = refl

value-try_from_example : Rc.value bad_session ≡ 0x9a2
value-try_from_example = value-try_from 0x9a2 bad_session (omega arith) read_bad_session

bad_session-IsCanonical : IsCanonical bad_session
unfolding Base.discriminant
bad_session-IsCanonical = (0x22, omega arith, refl, omega arith)

try_from-value_example : Rc.try_from (Rc.value bad_session) ≡ ok bad_session
try_from-value_example = try_from-value bad_session bad_session-IsCanonical

abbrev evict_bytes : List ℕ
evict_bytes = 0 ∷ 0 ∷ 1 ∷ 0x20 ∷ 5 ∷ []

read_evict : Enum.unmarshal 4 Cc.discriminant Cc.variants evict_bytes ≡ ok (evict_control, 5 ∷ [])
unfolding Enum.unmarshal Integer.unmarshal WireBytes.cast_prefix WireBytes.validate_prefix
    Integer.value Integer.from_be_bytes Integer.from_digits Enum.try_from Enum.find Cc.discriminant
read_evict = refl
