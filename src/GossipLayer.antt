-- ===== src/GossipLayer.antt =====
-- src/network_layer.rs: the event loop that drives a node of src/adkg_layer.bkp.rs over gossip. The
-- construction of the swarm, which goes before, is in the child module Setup.
pub mod PeerList
pub mod Loop
pub mod Keeps
pub mod Setup
pub mod Identity
pub mod Cache
pub mod Duplicates
pub mod Restart
use mpc_node.Common.{
  ℕ, ◌≡◌, String, Bool, true, false, not, Option, none, some, List, [], ◌∷◌, ◌++◌, keep, str_eq,
  Outcome, ok, Io, pure, get, modify, or_fail, when, ◌>>=◌, ◌>>◌, if◌then◌else◌, ◌||◌, and_then,
}
use mpc_node.Crypto.{Curve}
use mpc_node.Wire.{Json, Gossip, Bytes}
use mpc_node.Rpc.{PeerId}
use mpc_node.Adkg
use mpc_node.Adkg.{AdkgNode, AdkgMessage}

-- The two arms of `select!`, the events as the loop tells them apart. A line of the standard input
-- is its bytes.
pub data Event : Type 0 where
  line : Bytes → Event
  discovered : List (PeerId × String) → Event
  expired : List (PeerId × String) → Event
  gossip_message : PeerId → Bytes → Event
  new_listen_addr : String → Event
  other : Event

-- What the loop calls of libp2p's gossipsub, and the set of explicit peers that it keeps: adding a
-- peer puts it in, removing takes it out, and the other calls leave the set alone. `poll` is what
-- waiting for an event does to the swarm.
pub record Behaviour : Type 1 where
  pub Swarm : Type 0
  pub publish : Swarm → String → Bytes → Option Swarm
  pub subscribe : Swarm → String → Option Swarm
  pub add_explicit_peer : Swarm → PeerId → Swarm
  pub remove_explicit_peer : Swarm → PeerId → Swarm
  pub Multiaddr : Type 0
  pub parse_multiaddr : String → Option Multiaddr
  pub listen_on : Swarm → Multiaddr → Option Swarm
  pub poll : Swarm → Event → Swarm
  pub is_explicit : Swarm → PeerId → Bool
  pub explicit-add :
      (s : Swarm) (p q : PeerId)
      → is_explicit (add_explicit_peer s p) q ≡ (if str_eq p q then true else is_explicit s q)
  pub explicit-remove :
      (s : Swarm) (p q : PeerId)
      → is_explicit (remove_explicit_peer s p) q ≡ (if str_eq p q then false else is_explicit s q)
  pub explicit-publish :
      (s s' : Swarm) (topic : String) (bytes : Bytes) (q : PeerId)
      → publish s topic bytes ≡ some s'
      → is_explicit s' q ≡ is_explicit s q
  pub explicit-subscribe :
      (s s' : Swarm) (topic : String) (q : PeerId)
      → subscribe s topic ≡ some s'
      → is_explicit s' q ≡ is_explicit s q
  pub explicit-listen_on :
      (s s' : Swarm) (address : Multiaddr) (q : PeerId)
      → listen_on s address ≡ some s'
      → is_explicit s' q ≡ is_explicit s q
  pub explicit-poll :
      (s : Swarm) (event : Event) (q : PeerId) → is_explicit (poll s event) q ≡ is_explicit s q

-- The part of it that the ADKG node is lent.
abbrev pub gossip : Behaviour → Gossip
gossip b = record { Swarm = b.Swarm; publish = b.publish }

-- `adkg_node`, `swarm` and `peer_list`.
pub record World (c : Curve) (b : Behaviour) : Type 0 where
  pub node : AdkgNode c
  pub swarm : b.Swarm
  pub peer_list : List PeerId

-- `peer_list.retain(|p| p != &peer_id)`
unfoldable pub retain_others : PeerId → List PeerId → List PeerId
retain_others peer_id = keep (λ p. not (str_eq p peer_id))

module _ (c : Curve) (b : Behaviour) (json : Json (AdkgMessage c)) where
  abbrev on_swarm : (b.Swarm → b.Swarm) → Io (World c b) (Unit {0})
  on_swarm f = modify (λ w. record w { swarm = f w.swarm })

  abbrev on_peers : (List PeerId → List PeerId) → Io (World c b) (Unit {0})
  on_peers f = modify (λ w. record w { peer_list = f w.peer_list })

  -- A method of the ADKG node, which is lent the swarm.
  unfoldable pub on_adkg : Io (Adkg.World c (gossip b)) (Unit {0}) → Io (World c b) (Unit {0})
  on_adkg m w =
      let (r, a) = m (record { node = w.node; swarm = w.swarm }) in
      (r, record w { node = a.node; swarm = a.swarm })

  -- A refusal is printed only.
  unfoldable pub publish_line : Bytes → Io (World c b) (Unit {0})
  publish_line bytes w = elim (b.publish w.swarm "test-net" bytes) [
    | none ↦ (ok tt, w)
    | some swarm ↦ (ok tt, record w { swarm = swarm })
  ]

  unfoldable pub add_peers : List (PeerId × String) → Io (World c b) (Unit {0})
  add_peers [] = pure tt
  add_peers ((peer_id, address) ∷ rest) = do
    on_peers (retain_others peer_id)
    on_peers (λ peers. peers ++ peer_id ∷ [])
    on_swarm (λ swarm. b.add_explicit_peer swarm peer_id)
    add_peers rest

  unfoldable pub remove_peers : List (PeerId × String) → Io (World c b) (Unit {0})
  remove_peers [] = pure tt
  remove_peers ((peer_id, address) ∷ rest) = do
    on_peers (retain_others peer_id)
    on_swarm (λ swarm. b.remove_explicit_peer swarm peer_id)
    remove_peers rest

  -- Bytes that are no `ADKGMessage` are printed only.
  unfoldable pub handle_gossip : Option (AdkgMessage c) → Io (World c b) (Unit {0})
  unfolding on_adkg
  handle_gossip none = pure tt
  handle_gossip (some adkg_msg) = on_adkg (Adkg.handle_message c (gossip b) json adkg_msg)

  unfoldable pub handle_event : Event → Io (World c b) (Unit {0})
  unfolding publish_line add_peers remove_peers handle_gossip
  handle_event (line bytes) = publish_line bytes
  handle_event (discovered list) = add_peers list
  handle_event (expired list) = remove_peers list
  handle_event (gossip_message peer_id bytes) = handle_gossip (json.from_slice bytes)
  handle_event (new_listen_addr address) = pure tt
  handle_event other = pure tt

  -- The loop on the events that come.
  unfoldable pub run_loop : List Event → Io (World c b) (Unit {0})
  run_loop [] = pure tt
  run_loop (event ∷ events) = do
    on_swarm (λ swarm. b.poll swarm event)
    handle_event event
    run_loop events

  unfoldable pub subscribe_to : String → Io (World c b) (Unit {0})
  subscribe_to topic = do
    w ← get
    swarm ← or_fail (b.subscribe w.swarm topic) "subscription failed"
    on_swarm (λ _. swarm)

  unfoldable pub listen_to : String → Io (World c b) (Unit {0})
  listen_to text = do
    address ← or_fail (b.parse_multiaddr text) "invalid multiaddr"
    w ← get
    swarm ← or_fail (b.listen_on w.swarm address) "listening failed"
    on_swarm (λ _. swarm)

  -- What `run` does before its loop: the topics, the listeners, the proposal.
  unfoldable pub prepare : (ℕ → c.Scalar) → Io (World c b) (Unit {0})
  unfolding subscribe_to listen_to on_adkg
  prepare rng = do
    subscribe_to "test-net"
    subscribe_to "/adkg/1.0.0"
    listen_to "/ip4/0.0.0.0/udp/0/quic-v1"
    listen_to "/ip4/0.0.0.0/tcp/0"
    on_adkg (Adkg.start_adkg c (gossip b) json rng)

  -- `run` from the swarm that it has built on, whose peer id is `node_id`.
  unfoldable pub run :
      String → ℕ → ℕ → ℕ → (ℕ → c.Scalar) → b.Swarm → List Event → Outcome (Unit {0}) × World c b
  unfolding prepare
  run node_id n t idx rng swarm events =
      (do prepare rng; run_loop events)
        (record { node = Adkg.new c node_id n t idx; swarm = swarm; peer_list = [] })
