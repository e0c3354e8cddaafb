-- ===== src/Rpc.antt =====
-- src/types/rpc.rs: the requests and responses between peers, and the CBOR codec for them. A peer
-- id is taken as its text; `serde_cbor` is a parameter.
pub mod RoundTrip
use mpc_node.Common.{
  ℕ, String, Bool, Option, none, some, List, [], ◌++◌, Outcome, ok, err, Io, or_fail, modify, get,
  ◌>>=◌, ◌>>◌,
}
use mpc_node.Crypto.{Curve}
use mpc_node.Wire.{Bytes, Json}
use mpc_node.Types.{DkgStatus}

abbrev pub PeerId : Type 0
PeerId = String

-- `types::PeerInfo`
pub record PeerInfo : Type 0 where
  pub addresses : List String
  pub connected : Bool

pub data RpcRequest (c : Curve) : Type 0 where
  custom : String → Bytes → RpcRequest c
  get_dkg_status : RpcRequest c
  get_peer_info : RpcRequest c
  ping : RpcRequest c
  start_dkg : RpcRequest c
  start_adkg : RpcRequest c
  send_avss_share : PeerId → PeerId → c.Scalar → List c.G1Affine → RpcRequest c
  broadcast_commitments : PeerId → List c.G1Affine → RpcRequest c
  submit_complaint : PeerId → PeerId → String → RpcRequest c
  declare_adkg_complete : PeerId → c.Scalar → RpcRequest c

pub data RpcResponse (c : Curve) : Type 0 where
  custom : String → Bytes → RpcResponse c
  dkg_started : PeerId → RpcResponse c
  dkg_error : String → RpcResponse c
  dkg_status : DkgStatus → RpcResponse c
  error : String → RpcResponse c
  peer_info : PeerInfo → RpcResponse c
  pong : RpcResponse c
  no_response : RpcResponse c
  ack : RpcResponse c
  verified : RpcResponse c
  share_accepted : RpcResponse c
  complaint_accepted : RpcResponse c
  finished_adkg : c.G1Affine → RpcResponse c
  got_avss_share : PeerId → PeerId → c.Scalar → List c.G1Affine → RpcResponse c

-- A substream holds the bytes that are written to it; `read_to_end` takes all of them.
module _ {M : Type 0} (cbor : Json M) where
  read_to_end : Io Bytes Bytes
  read_to_end io = (ok io, [])

  -- `write_request` and `write_response`
  unfoldable pub write_message : M → Io Bytes (Unit {0})
  write_message msg = do bytes ← or_fail (cbor.to_vec msg) "InvalidData"; modify (λ io. io ++ bytes)

  -- `read_request` and `read_response`
  unfoldable pub read_message : Io Bytes M
  unfolding read_to_end
  read_message = do buf ← read_to_end; or_fail (cbor.from_slice buf) "InvalidData"
