-- ===== src/Protocol/Frame/Stream.antt =====
-- crates/protocol/src/frame: marshaled frames, one behind the other, and where the views split them.
use tpm2_library.Common.{ℕ, ◌<◌, ◌^◌, List, ◌++◌, ok, ◌≡◌, sym, ap, arith}
use tpm2_library.Protocol.Integer.{to_be_bytes}
use tpm2_library.Protocol.Integer.Bytes.{length-to_be_bytes}
use tpm2_library.Protocol.Writer.Append.{encode_each}
use tpm2_library.Protocol.Frame.Command.{
  command_size, command_bytes, auth_area, length-command_bytes,
}
use tpm2_library.Protocol.Frame.Response.{
  response_size, response_bytes, parameter_size_field, length-response_bytes,
}
use tpm2_library.Protocol.Frame.Envelope.{split_frame}
use tpm2_library.Protocol.Frame.Envelope.Prefix.{IsFramed, split_frame-framed}

module _ {S : Type 0} (encode : S → List ℕ) (tag code : ℕ) (ss : List S) (hs ps : List ℕ) where
  command-IsFramed :
      command_size encode ss hs ps < 2 ^ 32 → IsFramed (command_bytes encode tag code ss hs ps)
  command-IsFramed small =
      let size = length-command_bytes encode tag code ss hs ps in
      let body = to_be_bytes 4 code ++ (hs ++ (auth_area encode ss ++ ps)) in
      record {
        tag = to_be_bytes 2 tag;
        body = body;
        two = length-to_be_bytes 2 tag;
        form = ap (λ n. to_be_bytes 2 tag ++ (to_be_bytes 4 n ++ body)) (sym size);
        header = omega (arith, size);
        small = omega (arith, size);
      }

  response-IsFramed :
      response_size encode ss hs ps < 2 ^ 32 → IsFramed (response_bytes encode tag code ss hs ps)
  response-IsFramed small =
      let size = length-response_bytes encode tag code ss hs ps in
      let body =
        to_be_bytes 4 code
        ++ (hs ++ (parameter_size_field encode ss ps ++ (ps ++ encode_each encode ss))) in
      record {
        tag = to_be_bytes 2 tag;
        body = body;
        two = length-to_be_bytes 2 tag;
        form = ap (λ n. to_be_bytes 2 tag ++ (to_be_bytes 4 n ++ body)) (sym size);
        header = omega (arith, size);
        small = omega (arith, size);
      }

  -- The wire forms of commands and responses whose size fits 32 bits are split off the front of a
  -- buffer exactly where they end, whatever follows them.
  pub marshaled-split_frame :
      (rest : List ℕ)
      → command_size encode ss hs ps < 2 ^ 32
      → response_size encode ss hs ps < 2 ^ 32
      → (split_frame (command_bytes encode tag code ss hs ps ++ rest)
          ≡ ok (command_bytes encode tag code ss hs ps, rest))
        × (split_frame (response_bytes encode tag code ss hs ps ++ rest)
            ≡ ok (response_bytes encode tag code ss hs ps, rest))
  marshaled-split_frame rest c r = (
    (split_frame-framed (command_bytes encode tag code ss hs ps) rest (command-IsFramed c)).0,
    (split_frame-framed (response_bytes encode tag code ss hs ps) rest (response-IsFramed r)).0,
  )
