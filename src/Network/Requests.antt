-- ===== src/Network/Requests.antt =====
-- The answers of `handle_swarm_event` in src/network/mod.rs to the requests of peers.
use mpc_node.Common.{ℕ, Option, none, some, List, [], if◌then◌else◌, ok, Io, pure, ◌>>◌, true}
use mpc_node.Crypto.{Curve}
use mpc_node.Types.{DkgStatus}
use mpc_node.Rpc.{PeerId, RpcRequest, RpcResponse}
use mpc_node.Dkg.{DkgNode}
use mpc_node.Dkg
use mpc_node.Network.{World, Crates}
use mpc_node.Network.Routing.{on_dkg}

module _ (c : Curve) where
  unfoldable pub check_share : c.Scalar → List c.G1Affine → Option (DkgNode c) → RpcResponse c
  check_share share commitments none = RpcResponse.error "DKG not initialized"
  check_share share commitments (some node) =
      if Dkg.verify_share c node share commitments
      then RpcResponse.share_accepted
      else RpcResponse.error "Invalid share"

  unfoldable pub status_of : Option (DkgNode c) → DkgStatus
  status_of none = DkgStatus.new
  status_of (some node) = Dkg.get_status c node

module _ (c : Curve) (E : Type 0) (x : Crates c) where
  start_node : (ℕ → c.Scalar) → PeerId → Option (DkgNode c) → Io (World c E x) (RpcResponse c)
  unfolding on_dkg
  start_node rng peer none = pure (RpcResponse.dkg_error "dkg is not initialized.")
  start_node rng peer (some node) = do
    on_dkg c E x (Dkg.start_dkg c x.json rng) (some node)
    pure (RpcResponse.dkg_started peer)

  -- The response to a request of a peer.
  unfoldable pub respond : (ℕ → c.Scalar) → PeerId → RpcRequest c → Io (World c E x) (RpcResponse c)
  unfolding start_node check_share status_of
  respond rng peer RpcRequest.ping w = (ok RpcResponse.pong, w)
  respond rng peer RpcRequest.get_peer_info w =
      (ok (RpcResponse.peer_info (record { addresses = []; connected = true })), w)
  respond rng peer (RpcRequest.custom id bytes) w = (ok (RpcResponse.custom id bytes), w)
  respond rng peer RpcRequest.start_adkg w = start_node rng peer w.layer.dkg_node w
  respond rng peer RpcRequest.get_dkg_status w =
      (ok (RpcResponse.dkg_status (status_of c w.layer.dkg_node)), w)
  respond rng peer (RpcRequest.send_avss_share dealer receiver share commitments) w =
      (ok (check_share c share commitments w.layer.dkg_node), w)
  respond rng peer _ w = (ok RpcResponse.ack, w)
