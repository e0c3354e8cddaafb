-- ===== src/Swarm.antt =====
-- What the programs of the repository call to build a libp2p swarm and to set up logging, which is no
-- code of the repository: key pairs, transports, gossipsub, mDNS, request-response, tracing. The
-- code that src/network/mod.rs, src/network_layer.rs, src/network_layer_bkp.rs and src/bin/ptp.rs
-- share word for word stands here too.
use mpc_node.Common.{ℕ, ◌≡◌, String, Option, none, some, Io, or_fail, ◌>>=◌}
use mpc_node.Wire.{Bytes}
use mpc_node.Rpc.{PeerId}

-- `gossipsub::ValidationMode`, of which the programs name one.
pub data ValidationMode : Type 0 where
  strict : ValidationMode

-- `mdns::Config`, in seconds; the other settings are the defaults.
pub record MdnsConfig : Type 0 where
  pub query_interval : ℕ
  pub ttl : ℕ

-- The constructors of the crates. `Wired` is a `SwarmBuilder` that has its key and its transports;
-- a key pair that is generated is an argument of the code that generates it.
pub record Libraries : Type 1 where
  pub Keypair : Type 0
  pub peer_id : Keypair → PeerId
  pub Noise : Type 0
  pub noise_new : Keypair → Option Noise
  pub Transport : Type 0
  pub tcp_transport : Noise → Transport
  pub quic_transport : Keypair → Transport
  pub or_transport : Transport → Transport → Transport
  pub Wired : Type 0
  pub with_tcp : Keypair → Option Wired
  pub with_quic : Wired → Wired
  pub identity_of : Wired → Keypair
  pub identity-with_tcp : (key : Keypair) (w : Wired) → with_tcp key ≡ some w → identity_of w ≡ key
  pub identity-with_quic : (w : Wired) → identity_of (with_quic w) ≡ identity_of w
  pub GossipsubConfig : Type 0
  pub gossipsub_config : ℕ → ValidationMode → (Bytes → String) → Option GossipsubConfig
  pub Gossipsub : Type 0
  pub gossipsub_new : Keypair → GossipsubConfig → Option Gossipsub
  pub Mdns : Type 0
  pub mdns_new : MdnsConfig → PeerId → Option Mdns
  pub RequestResponse : Type 0
  pub request_response_new : String → RequestResponse
  pub hash : Bytes → ℕ
  pub to_string : ℕ → String

-- Logging for the whole process: there is one global subscriber, and setting it is refused from then
-- on.
pub record Tracing : Type 1 where
  pub Process : Type 0
  pub try_init : Process → Option Process
  -- `tracing_appender::rolling::never`, which panics where it cannot open its file.
  pub Appender : Type 0
  pub rolling_never : String → String → Option Appender
  pub Filter : Type 0
  pub parse_filter : String → Option Filter
  pub try_init-once : (p p' : Process) → try_init p ≡ some p' → try_init p' ≡ none

-- `message_id_fn`: the data alone gives the id of a message.
unfoldable pub message_id : Libraries → Bytes → String
message_id l message = l.to_string (l.hash message)

-- The settings of mDNS.
abbrev pub mdns_config : MdnsConfig
mdns_config = record { query_interval = 10; ttl = 10 }

-- `MPCProtocol` and `build_mpc_behaviour` of src/types/rpc.rs.
abbrev pub mpc_protocol : String
mpc_protocol = "/mpc/1.0.0"

unfoldable pub build_mpc_behaviour : (l : Libraries) → l.RequestResponse
build_mpc_behaviour l = l.request_response_new mpc_protocol

module _ (l : Libraries) {S : Type 0} where
  -- The configuration of gossipsub, with a message id made from the data.
  unfoldable pub build_config : Io S l.GossipsubConfig
  unfolding message_id
  build_config = or_fail (l.gossipsub_config 30 strict (message_id l)) "config"

  -- `gossipsub::Behaviour::new` with signed messages.
  unfoldable pub build_gossipsub : l.Keypair → Io S l.Gossipsub
  unfolding build_config
  build_gossipsub key = do config ← build_config; or_fail (l.gossipsub_new key config) "gossipsub"
