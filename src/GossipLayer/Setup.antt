-- ===== src/GossipLayer/Setup.antt =====
-- The first half of `run` in src/network_layer.rs and in its earlier version,
-- src/network_layer_bkp.rs: logging, the key, and the swarm that the second half works with. The
-- second half is the same code in both, but for what is printed.
use mpc_node.Common.{
  ℕ, ◌≡◌, String, Option, none, some, List, Io, pure, get, modify, or_fail, ◌>>=◌, ◌>>◌,
}
use mpc_node.Crypto.{Curve}
use mpc_node.Wire.{Json, Bytes}
use mpc_node.Rpc.{PeerId}
use mpc_node.Adkg.{AdkgMessage}
use mpc_node.Swarm.{Libraries, Tracing, mdns_config, build_gossipsub}
use mpc_node.GossipLayer.{Behaviour, Event, World, run}

pub record MyBehaviour (l : Libraries) : Type 0 where
  pub gossipsub : l.Gossipsub
  pub mdns : l.Mdns

-- What makes a swarm out of a behaviour, and the peer id of the swarm, which stays as it is.
pub record SwarmBuilder (l : Libraries) (b : Behaviour) : Type 0 where
  pub with_tokio_executor : l.Transport → MyBehaviour l → PeerId → b.Swarm
  pub build : l.Wired → MyBehaviour l → b.Swarm
  pub local_peer_id : b.Swarm → PeerId
  pub local-with_tokio_executor :
      (transport : l.Transport) (behaviour : MyBehaviour l) (id : PeerId)
      → local_peer_id (with_tokio_executor transport behaviour id) ≡ id
  pub local-build :
      (wired : l.Wired) (behaviour : MyBehaviour l)
      → local_peer_id (build wired behaviour) ≡ l.peer_id (l.identity_of wired)
  pub local-publish :
      (s s' : b.Swarm) (topic : String) (bytes : Bytes)
      → b.publish s topic bytes ≡ some s'
      → local_peer_id s' ≡ local_peer_id s
  pub local-subscribe :
      (s s' : b.Swarm) (topic : String)
      → b.subscribe s topic ≡ some s'
      → local_peer_id s' ≡ local_peer_id s
  pub local-listen_on :
      (s s' : b.Swarm) (address : b.Multiaddr)
      → b.listen_on s address ≡ some s'
      → local_peer_id s' ≡ local_peer_id s
  pub local-add :
      (s : b.Swarm) (p : PeerId) → local_peer_id (b.add_explicit_peer s p) ≡ local_peer_id s
  pub local-remove :
      (s : b.Swarm) (p : PeerId) → local_peer_id (b.remove_explicit_peer s p) ≡ local_peer_id s
  pub local-poll : (s : b.Swarm) (event : Event) → local_peer_id (b.poll s event) ≡ local_peer_id s

-- The process that `run` is called in, and what `run` works on once it has built its swarm.
pub record Program (c : Curve) (b : Behaviour) (t : Tracing) : Type 0 where
  pub process : t.Process
  pub world : Option (World c b)

module _ (c : Curve) (b : Behaviour) (json : Json (AdkgMessage c)) (l : Libraries) (t : Tracing)
    (builder : SwarmBuilder l b) where
  abbrev set_process : t.Process → Io (Program c b t) (Unit {0})
  set_process process = modify (λ s. record s { process = process })

  build_behaviour : l.Keypair → Io (Program c b t) (MyBehaviour l)
  build_behaviour key = do
    gossipsub ← build_gossipsub l key
    mdns ← or_fail (l.mdns_new mdns_config (l.peer_id key)) "mdns"
    pure (record { gossipsub = gossipsub; mdns = mdns })

  -- QUIC or TCP, both with the key, whose peer id the swarm gets.
  unfoldable pub build_swarm : l.Keypair → Io (Program c b t) b.Swarm
  unfolding build_behaviour
  build_swarm local_key = do
    noise ← or_fail (l.noise_new local_key) "noise"
    let tcp_transport = l.tcp_transport noise
    let quic_transport = l.quic_transport local_key
    let transport = l.or_transport quic_transport tcp_transport
    behaviour ← build_behaviour local_key
    pure (builder.with_tokio_executor transport behaviour (l.peer_id local_key))

  -- The second half of `run`, whose first half has left a swarm.
  unfoldable pub run_on :
      PeerId → ℕ → ℕ → ℕ → (ℕ → c.Scalar) → List Event → b.Swarm → Io (Program c b t) (Unit {0})
  run_on node_id n threshold idx rng events swarm s =
      let (r, w) = run c b json node_id n threshold idx rng swarm events in
      (r, record s { world = some w })

  -- `run` of src/network_layer.rs, which has drawn `local_key`.
  unfoldable pub launch :
      ℕ → ℕ → ℕ → l.Keypair → (ℕ → c.Scalar) → List Event → Io (Program c b t) (Unit {0})
  unfolding build_swarm run_on
  launch n threshold idx local_key rng events = do
    s ← get
    process ←
        or_fail (t.try_init s.process) "a global default trace dispatcher has already been set"
    set_process process
    swarm ← build_swarm local_key
    run_on (l.peer_id local_key) n threshold idx rng events swarm

  -- `let _ = tracing_subscriber::fmt()...try_init();`
  try_init_ignored : Io (Program c b t) (Unit {0})
  try_init_ignored = modify (λ s. record s {
    process = elim (t.try_init s.process) [ none ↦ s.process | some process ↦ process ];
  })

  -- The closure of `with_behaviour` is given the key of the builder.
  unfoldable pub build_swarm_earlier : l.Keypair → Io (Program c b t) b.Swarm
  unfolding build_behaviour
  build_swarm_earlier new_key = do
    wired ← or_fail (l.with_tcp new_key) "noise"
    behaviour ← build_behaviour (l.identity_of (l.with_quic wired))
    pure (builder.build (l.with_quic wired) behaviour)

  -- `run` of src/network_layer_bkp.rs, which has drawn `local_key`; `with_new_identity` has drawn
  -- `new_key`.
  unfoldable pub launch_earlier :
      ℕ
      → ℕ
      → ℕ
      → l.Keypair
      → l.Keypair
      → (ℕ → c.Scalar)
      → List Event
      → Io (Program c b t) (Unit {0})
  unfolding try_init_ignored build_swarm_earlier run_on
  launch_earlier n threshold idx local_key new_key rng events = do
    try_init_ignored
    swarm ← build_swarm_earlier new_key
    run_on (l.peer_id local_key) n threshold idx rng events swarm
