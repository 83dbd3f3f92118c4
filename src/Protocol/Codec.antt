-- ===== src/Protocol/Codec.antt =====
-- crates/protocol/src/lib.rs: the traits `TpmSized`, `TpmMarshal` and `TpmUnmarshal` of one type,
-- as a record of its operations, and the laws that a client of the type relies on.
pub mod Roundtrip
use tpm2_library.Common.{ℕ, ◌≤◌, List, ◌++◌, length, ok, ◌≡◌, All}
use tpm2_library.Protocol.Error.{TpmResult}
use tpm2_library.Protocol.Writer.{Marshal}
use tpm2_library.Protocol.Writer.Append.{Emits}
use tpm2_library.Protocol.Integer.Bytes.{IsByte}

pub record Codec (A : Type 0) : Type 0 where
  pub max_size : ℕ
  pub len : A → ℕ
  pub marshal : A → Marshal
  pub unmarshal : List ℕ → TpmResult (A × List ℕ)

-- The encoding of a well-formed value is what `marshal` writes and `len` measures, and
-- `unmarshal` reads values back exactly off their encodings.
pub record IsCodec {A : Type 0} (c : Codec A) (encode : A → List ℕ) (IsWf : A → Type 0)
    : Type 0 where
  pub len_encode : (x : A) → IsWf x → c.len x ≡ length (encode x)
  pub len_bound : (x : A) → IsWf x → c.len x ≤ c.max_size
  pub emits : (x : A) → IsWf x → Emits (c.marshal x) (encode x)
  pub reads : (x : A) (rest : List ℕ) → IsWf x → c.unmarshal (encode x ++ rest) ≡ ok (x, rest)
  pub sound :
      (buf : List ℕ) (x : A) (rest : List ℕ)
      → All IsByte buf
      → c.unmarshal buf ≡ ok (x, rest)
      → IsWf x × (buf ≡ encode x ++ rest)
