-- ===== src/Rpc/RoundTrip.antt =====
-- A request or a response goes through the codec of src/types/rpc.rs unchanged.
use mpc_node.Common.{◌≡◌, some, none, [], ok, err, arith, ◌>>◌}
use mpc_node.Wire.{Bytes, Json}
use mpc_node.Rpc.{write_message, read_message}

module _ {M : Type 0} (cbor : Json M) where
  -- A message that can be written goes through the codec unchanged: what is written to an empty
  -- substream is read from it, and the substream is empty again.
  pub read_message-write_message :
      (msg : M) (bytes : Bytes)
      → cbor.to_vec msg ≡ some bytes
      → (do write_message cbor msg; read_message cbor) [] ≡ (ok msg, [])
  unfolding write_message read_message
  read_message-write_message msg bytes e = ground (arith, e, cbor.from_slice-to_vec msg bytes e)

  -- Bytes that are no message are an error, whatever they are.
  pub read_message_invalid :
      (bytes : Bytes)
      → cbor.from_slice bytes ≡ none
      → read_message cbor bytes ≡ (err "InvalidData", [])
  unfolding read_message
  read_message_invalid bytes e = ground (arith, e)
