-- ===== src/Protocol/Enum.antt =====
-- crates/protocol/src/macro/enum.rs: what `tpm_enum!` makes of a list of variants with their
-- discriminants, over an unsigned integer of `n` bytes. The match of the source on the constants is
-- a search in the order of the variants.
pub mod Laws
use tpm2_library.Common.{
  ℕ, List, [], ◌∷◌, ◌==◌, Option, none, some, if◌then◌else◌, ok, ok_or, ◌>>=◌,
}
use tpm2_library.Protocol.Error.{TpmResult, variant_not_available}
use tpm2_library.Protocol.Writer.{Marshal}
use tpm2_library.Protocol.Integer

module _ {V : Type 0} (n : ℕ) (discriminant : V → ℕ) where
  unfoldable pub find : List V → ℕ → Option V
  find [] raw = none
  find (v ∷ vs) raw = if discriminant v == raw then some v else find vs raw

  unfoldable pub try_from : List V → ℕ → TpmResult V
  unfolding find
  try_from variants raw = ok_or (variant_not_available 0 raw) (find variants raw)

  unfoldable pub marshal : V → Marshal
  marshal v = Integer.marshal n (Integer.new n (discriminant v))

  unfoldable pub unmarshal : List V → List ℕ → TpmResult (V × List ℕ)
  unmarshal variants buffer = do
    (raw, rest) ← Integer.unmarshal n buffer
    v ← try_from variants (Integer.value n raw)
    ok (v, rest)
