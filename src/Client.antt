-- ===== src/Client.antt =====
-- src/bin/ptp.rs: the test client, which asks each node that it connects to to start the distributed
-- key generation.
pub mod Requests
use mpc_node.Common.{
  List, [], ◌∷◌, ℕ, String, Option, Io, pure, or_fail, unwrap, ◌>>=◌, if◌then◌else◌, ltb, length,
  get_elem?,
}
use mpc_node.Swarm.{Libraries, build_mpc_behaviour}
use mpc_node.Crypto.{Curve}
use mpc_node.Rpc.{PeerId, RpcRequest, RpcResponse}
use mpc_node.Network.{Libp2p}

-- The events that the loop tells apart. A response channel is a number.
pub data ClientEvent (c : Curve) : Type 0 where
  connection_established : PeerId → ClientEvent c
  response : PeerId → RpcResponse c → ClientEvent c
  request : PeerId → RpcRequest c → ℕ → ClientEvent c
  outbound_failure : PeerId → ClientEvent c
  inbound_failure : PeerId → ClientEvent c
  response_sent : PeerId → ClientEvent c
  new_listen_addr : String → ClientEvent c
  other : ClientEvent c

module _ (c : Curve) (p2p : Libp2p c) where
  -- One turn of the loop. What is only printed leaves the swarm alone.
  -- An answer that could not be sent is printed only.
  unfoldable pub handle_event : ClientEvent c → p2p.Swarm → p2p.Swarm
  handle_event (connection_established peer_id) swarm =
      p2p.send_request swarm peer_id RpcRequest.start_adkg
  handle_event (request peer request_value channel) swarm =
      p2p.send_response swarm channel RpcResponse.pong
  handle_event (response peer response_value) swarm = swarm
  handle_event (outbound_failure peer) swarm = swarm
  handle_event (inbound_failure peer) swarm = swarm
  handle_event (response_sent peer) swarm = swarm
  handle_event (new_listen_addr address) swarm = swarm
  handle_event other swarm = swarm

  -- The loop on the events that come.
  unfoldable pub run : List (ClientEvent c) → p2p.Swarm → p2p.Swarm
  run [] swarm = swarm
  run (event ∷ events) swarm = run events (handle_event event swarm)

pub record MyBehaviour (l : Libraries) : Type 0 where
  pub request_response : l.RequestResponse

-- The calls on a swarm before the loop.
pub record SwarmBuilder (c : Curve) (l : Libraries) (p2p : Libp2p c) : Type 1 where
  pub Multiaddr : Type 0
  pub parse_multiaddr : String → Option Multiaddr
  pub build : l.Wired → MyBehaviour l → p2p.Swarm
  pub dial : p2p.Swarm → Multiaddr → Option p2p.Swarm

-- The process has exited with a code, or is in the loop with this swarm.
pub data MainResult (S : Type 0) : Type 0 where
  exited : ℕ → MainResult S
  looping : S → MainResult S

module _ (c : Curve) (p2p : Libp2p c) (l : Libraries) (builder : SwarmBuilder c l p2p) where
  -- The message about the usage reads `args[0]`.
  print_usage : List String → Io (Unit {0}) (MainResult p2p.Swarm)
  print_usage args = do program ← unwrap (get_elem? args 0); pure (exited 1)

  dial_server :
      l.Keypair → List String → List (ClientEvent c) → Io (Unit {0}) (MainResult p2p.Swarm)
  dial_server local_key args events = do
    text ← unwrap (get_elem? args 1)
    server_addr ← or_fail (builder.parse_multiaddr text) "invalid multiaddr"
    wired ← or_fail (l.with_tcp local_key) "noise"
    let swarm =
        builder.build (l.with_quic wired) (record { request_response = build_mpc_behaviour l })
    dialling ← or_fail (builder.dial swarm server_addr) "dialling failed"
    pure (looping (run c p2p events dialling))

  -- `main`, which has drawn `local_key`, on the command line and the events that come.
  unfoldable pub main :
      l.Keypair → List String → List (ClientEvent c) → Io (Unit {0}) (MainResult p2p.Swarm)
  unfolding print_usage dial_server
  main local_key args events =
      if ltb (length args) 2 then print_usage args else dial_server local_key args events
