-- ===== src/Network/Setup.antt =====
-- `start` of src/network/mod.rs: the swarm that it builds, the addresses that it listens on, the peer
-- that the command line names, and the topics, before its loop.
use mpc_node.Common.{
  ℕ, ◌≡◌, String, Option, some, List, [], ◌∷◌, ◌++◌, Io, pure, get, or_fail, unwrap, when, leb,
  length, get_elem?, ◌>>=◌, ◌>>◌,
}
use mpc_node.Crypto.{Curve}
use mpc_node.Rpc.{PeerId}
use mpc_node.Swarm.{Libraries, mdns_config, build_gossipsub, build_mpc_behaviour}
use mpc_node.Network.{Libp2p, Crates, NetworkLayer, World, Input}
use mpc_node.Network.EventLoop.{on_swarm, subscribe_to_default_topics, run}

pub record MpcBehaviour (l : Libraries) : Type 0 where
  pub gossipsub : l.Gossipsub
  pub mdns : l.Mdns
  pub request_response : l.RequestResponse

-- What has been asked of a swarm so far: its identity, and the calls that it has taken.
pub record Status (Multiaddr : Type 0) : Type 0 where
  pub local_peer_id : PeerId
  pub listening : List Multiaddr
  pub dialled : List Multiaddr
  pub subscribed : List String

-- The calls on a swarm before the loop. A call that fails leaves no swarm: `?` ends `start`.
pub record SwarmBuilder (c : Curve) (l : Libraries) (p2p : Libp2p c) : Type 1 where
  pub Multiaddr : Type 0
  pub parse_multiaddr : String → Option Multiaddr
  pub build : l.Wired → MpcBehaviour l → p2p.Swarm
  pub listen_on : p2p.Swarm → Multiaddr → Option p2p.Swarm
  pub dial : p2p.Swarm → Multiaddr → Option p2p.Swarm
  pub status : p2p.Swarm → Status Multiaddr
  pub status-build :
      (wired : l.Wired) (behaviour : MpcBehaviour l)
      → status (build wired behaviour) ≡ record {
        local_peer_id = l.peer_id (l.identity_of wired);
        listening = [];
        dialled = [];
        subscribed = [];
      }
  pub status-listen_on :
      (s s' : p2p.Swarm) (address : Multiaddr)
      → listen_on s address ≡ some s'
      → status s' ≡ record (status s) { listening = (status s).listening ++ address ∷ [] }
  pub status-dial :
      (s s' : p2p.Swarm) (address : Multiaddr)
      → dial s address ≡ some s'
      → status s' ≡ record (status s) { dialled = (status s).dialled ++ address ∷ [] }
  pub status-subscribe :
      (s s' : p2p.Swarm) (topic : String)
      → p2p.subscribe s topic ≡ some s'
      → status s' ≡ record (status s) { subscribed = (status s).subscribed ++ topic ∷ [] }

-- The layer and what its command handlers act on, and the swarm once it is built.
pub record Started (c : Curve) (E : Type 0) (x : Crates c) : Type 0 where
  pub layer : NetworkLayer c E
  pub env : E
  pub swarm : Option x.p2p.Swarm

module _ (c : Curve) (E : Type 0) (x : Crates c) (l : Libraries)
    (builder : SwarmBuilder c l x.p2p) where
  -- The closure of `with_behaviour` is given the key of the builder.
  build_behaviour : l.Keypair → Io (Started c E x) (MpcBehaviour l)
  build_behaviour key = do
    gossipsub ← build_gossipsub l key
    mdns ← or_fail (l.mdns_new mdns_config (l.peer_id key)) "mdns"
    pure (record { gossipsub = gossipsub; mdns = mdns; request_response = build_mpc_behaviour l })

  unfoldable pub build_swarm : l.Keypair → Io (Started c E x) x.p2p.Swarm
  unfolding build_behaviour
  build_swarm local_key = do
    wired ← or_fail (l.with_tcp local_key) "noise"
    behaviour ← build_behaviour (l.identity_of (l.with_quic wired))
    pure (builder.build (l.with_quic wired) behaviour)

  unfoldable pub listen_to : String → Io (World c E x) (Unit {0})
  listen_to text = do
    address ← or_fail (builder.parse_multiaddr text) "invalid multiaddr"
    w ← get
    swarm ← or_fail (builder.listen_on w.swarm address) "listening failed"
    on_swarm c E x (λ _. swarm)

  -- `env::args()`; the name of the program comes first.
  unfoldable pub dial_argument : List String → Io (World c E x) (Unit {0})
  dial_argument args = when (leb 2 (length args)) (do
    text ← unwrap (get_elem? args 1)
    server_addr ← or_fail (builder.parse_multiaddr text) "invalid multiaddr"
    w ← get
    swarm ← or_fail (builder.dial w.swarm server_addr) "dialling failed"
    on_swarm c E x (λ _. swarm))

  unfoldable pub prepare : List String → Io (World c E x) (Unit {0})
  unfolding listen_to dial_argument
  prepare args = do
    listen_to "/ip4/0.0.0.0/tcp/0"
    listen_to "/ip4/0.0.0.0/udp/0/quic-v1"
    dial_argument args
    subscribe_to_default_topics c E x

  unfoldable pub on_world :
      Io (World c E x) (Unit {0}) → x.p2p.Swarm → Io (Started c E x) (Unit {0})
  on_world m swarm s =
      let (r, w) = m (record { layer = s.layer; swarm = swarm; env = s.env }) in
      (r, record { layer = w.layer; env = w.env; swarm = some w.swarm })

  -- `NetworkLayer::start` of a layer with this key, on the inputs that come.
  unfoldable pub start :
      l.Keypair → List String → (ℕ → ℕ → c.Scalar) → List (Input c) → Io (Started c E x) (Unit {0})
  unfolding build_swarm prepare on_world
  start local_key args rng inputs = do
    swarm ← build_swarm local_key
    on_world (do prepare args; run c E x rng inputs) swarm
