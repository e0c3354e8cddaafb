-- ===== src/Network.antt =====
-- src/network/mod.rs: the network layer, which owns the components, the peers and the channel, and
-- runs the event loop. libp2p's swarm and the crate `hex` are parameters; what the loop receives is
-- a sequence of inputs. `E` is what the command handlers act on.
pub mod Routing
pub mod Requests
pub mod EventLoop
pub mod Peers
pub mod Status
pub mod Table
pub mod Delivery
pub mod Failures
pub mod Setup
pub mod Startup
pub mod Ready
use mpc_node.Common.{
  ℕ, String, Bool, true, false, Option, none, some, List, [], ◌∷◌, ◌++◌, map, if◌then◌else◌, str_eq,
  Outcome, ok, err, Io, pure, get, modify, or_fail, unwrap, ◌>>=◌, ◌>>◌, keep, length,
}
use mpc_node.Common.HashMap.{HashMap, insert, values}
use mpc_node.Crypto.{Curve}
use mpc_node.Wire.{Bytes, Json}
use mpc_node.Channel.{Channel, channel, send}
use mpc_node.Types.{
  ChannelMessage, DkgStatus, GossipsubMessage, SigningMessage, dkg, signing, command, consensus,
}
use mpc_node.Types
use mpc_node.Rpc.{PeerId, PeerInfo, RpcRequest, RpcResponse}
use mpc_node.Dkg.{DkgNode, msg_topic_dkg}
use mpc_node.Dkg
use mpc_node.Signing.{SigningNode}
use mpc_node.Signing
use mpc_node.Consensus.{ConsensusNode, Blake3}
use mpc_node.Consensus
use mpc_node.Commands.{CommandProcessor}
use mpc_node.Commands

-- The calls of libp2p's swarm. The result of `send_response` is dropped in the source.
pub record Libp2p (c : Curve) : Type 1 where
  pub Swarm : Type 0
  pub publish : Swarm → String → Bytes → Option Swarm
  pub subscribe : Swarm → String → Option Swarm
  pub send_response : Swarm → ℕ → RpcResponse c → Swarm
  pub send_request : Swarm → PeerId → RpcRequest c → Swarm
  pub hex_decode : String → Option Bytes
  pub peer_id_from_bytes : Bytes → Option PeerId

-- The events that `handle_swarm_event` tells apart; a response channel is a number.
pub data SwarmEvent (c : Curve) : Type 0 where
  request : PeerId → RpcRequest c → ℕ → SwarmEvent c
  response : PeerId → RpcResponse c → SwarmEvent c
  outbound_failure : PeerId → SwarmEvent c
  inbound_failure : PeerId → SwarmEvent c
  response_sent : PeerId → SwarmEvent c
  discovered : List (PeerId × String) → SwarmEvent c
  expired : List (PeerId × String) → SwarmEvent c
  gossipsub_message : Bytes → SwarmEvent c
  subscribed : PeerId → String → SwarmEvent c
  new_listen_addr : String → SwarmEvent c
  connection_closed : PeerId → SwarmEvent c
  other : SwarmEvent c

pub record NetworkLayer (c : Curve) (E : Type 0) : Type 0 where
  pub local_peer_id : PeerId
  pub peers : HashMap PeerInfo
  pub message_channel : Channel
  pub topics : List String
  pub dkg_node : Option (DkgNode c)
  pub signing_node : Option (SigningNode c)
  pub consensus_node : Option ConsensusNode
  pub command_processor : Option (CommandProcessor E)

-- The crates that the layer calls.
pub record Crates (c : Curve) : Type 1 where
  pub p2p : Libp2p c
  pub blake3 : Blake3
  pub json : Json (GossipsubMessage c)
  pub signing_json : Json (SigningMessage c)

pub record World (c : Curve) (E : Type 0) (x : Crates c) : Type 0 where
  pub layer : NetworkLayer c E
  pub swarm : x.p2p.Swarm
  pub env : E

-- One iteration of the loop: an event of the swarm, or the head of the channel.
pub data Input (c : Curve) : Type 0 where
  swarm_event : SwarmEvent c → Input c
  channel_ready : Input c

module _ (c : Curve) {E : Type 0} where
  -- `NetworkLayer::new`
  abbrev pub new : PeerId → NetworkLayer c E
  new local_peer_id = record {
    local_peer_id = local_peer_id;
    peers = [];
    message_channel = channel;
    topics = [];
    dkg_node = none;
    signing_node = none;
    consensus_node = none;
    command_processor = none;
  }

  abbrev pub set_dkg_node : DkgNode c → NetworkLayer c E → NetworkLayer c E
  set_dkg_node node layer = record layer { dkg_node = some node }

  abbrev pub set_signing_node : SigningNode c → NetworkLayer c E → NetworkLayer c E
  set_signing_node node layer = record layer { signing_node = some node }

  abbrev pub set_consensus_node : ConsensusNode → NetworkLayer c E → NetworkLayer c E
  set_consensus_node node layer = record layer { consensus_node = some node }

  abbrev pub set_command_processor : CommandProcessor E → NetworkLayer c E → NetworkLayer c E
  set_command_processor processor layer = record layer { command_processor = some processor }

-- `for (peer_id, addr) in peers { self.peers.write().await.insert(..); }`
unfoldable pub add_discovered : List (PeerId × String) → HashMap PeerInfo → HashMap PeerInfo
add_discovered [] peers = peers
add_discovered ((peer_id, addr) ∷ rest) peers =
    add_discovered rest (insert peer_id (record { addresses = addr ∷ []; connected = true }) peers)

-- `if let Some(peer) = peers.get_mut(&peer_id) { peer.connected = false; }`
unfoldable pub disconnect : PeerId → HashMap PeerInfo → HashMap PeerInfo
disconnect peer_id [] = []
disconnect peer_id ((k, info) ∷ peers) =
    if str_eq k peer_id
    then (k, record info { connected = false }) ∷ peers
    else (k, info) ∷ disconnect peer_id peers

unfoldable pub expire : List (PeerId × String) → HashMap PeerInfo → HashMap PeerInfo
expire [] peers = peers
expire ((peer_id, addr) ∷ rest) peers = expire rest (disconnect peer_id peers)
