-- ===== src/Network/EventLoop.antt =====
-- The event loop of src/network/mod.rs: an event of the swarm or the head of the channel is
-- handled, and the first error ends the loop, as `?` does in `start`.
use mpc_node.Common.{
  ℕ, String, none, some, List, [], ◌∷◌, ◌++◌, ok, Io, pure, get, modify, or_fail, ◌>>=◌, ◌>>◌,
}
use mpc_node.Crypto.{Curve}
use mpc_node.Wire.{Bytes}
use mpc_node.Channel.{send}
use mpc_node.Types.{ChannelMessage, broadcast, unicast}
use mpc_node.Rpc.{RpcRequest}
use mpc_node.Dkg.{msg_topic_dkg}
use mpc_node.Network.{
  NetworkLayer, World, Crates, SwarmEvent, Input, swarm_event, channel_ready, add_discovered,
  expire,
}
use mpc_node.Network.Routing.{handle_gossipsub_message}
use mpc_node.Network.Requests.{respond}

module _ (c : Curve) (E : Type 0) (x : Crates c) where
  abbrev pub on_layer : (NetworkLayer c E → NetworkLayer c E) → Io (World c E x) (Unit {0})
  on_layer f = modify (λ w. record w { layer = f w.layer })

  abbrev pub on_swarm : (x.p2p.Swarm → x.p2p.Swarm) → Io (World c E x) (Unit {0})
  on_swarm f = modify (λ w. record w { swarm = f w.swarm })

  -- The source keeps the hashes of the topics in a set; here they are listed as they are subscribed to.
  unfoldable pub subscribe_all : List String → Io (World c E x) (Unit {0})
  subscribe_all [] = pure tt
  subscribe_all (topic ∷ rest) = do
    w ← get
    swarm ← or_fail (x.p2p.subscribe w.swarm topic) "subscription failed"
    on_swarm (λ _. swarm)
    on_layer (λ layer. record layer { topics = layer.topics ++ topic ∷ [] })
    subscribe_all rest

  unfoldable pub subscribe_to_default_topics : Io (World c E x) (Unit {0})
  subscribe_to_default_topics =
      subscribe_all (msg_topic_dkg ∷ "signing" ∷ "consensus" ∷ "commands" ∷ [])

  unfoldable pub handle_swarm_event : (ℕ → c.Scalar) → SwarmEvent c → Io (World c E x) (Unit {0})
  handle_swarm_event rng (SwarmEvent.request peer request response_channel) = do
    answer ← respond c E x rng peer request
    on_swarm (λ swarm. x.p2p.send_response swarm response_channel answer)
  handle_swarm_event rng (SwarmEvent.discovered found) =
      on_layer (λ layer. record layer { peers = add_discovered found layer.peers })
  handle_swarm_event rng (SwarmEvent.expired gone) =
      on_layer (λ layer. record layer { peers = expire gone layer.peers })
  handle_swarm_event rng (SwarmEvent.gossipsub_message bytes) = handle_gossipsub_message c E x bytes
  handle_swarm_event rng (SwarmEvent.response peer msg) = pure tt
  handle_swarm_event rng (SwarmEvent.outbound_failure peer) = pure tt
  handle_swarm_event rng (SwarmEvent.inbound_failure peer) = pure tt
  handle_swarm_event rng (SwarmEvent.response_sent peer) = pure tt
  handle_swarm_event rng (SwarmEvent.subscribed peer topic) = pure tt
  handle_swarm_event rng (SwarmEvent.new_listen_addr address) = pure tt
  handle_swarm_event rng (SwarmEvent.connection_closed peer) = pure tt
  handle_swarm_event rng SwarmEvent.other = pure tt

  -- `if let Err(e) = publish(..)`: a refusal is logged only.
  publish_or_log : String → Bytes → Io (World c E x) (Unit {0})
  publish_or_log topic bytes w = elim (x.p2p.publish w.swarm topic bytes) [
    | none ↦ (ok tt, w)
    | some swarm ↦ (ok tt, record w { swarm = swarm })
  ]

  unfoldable pub handle_channel_message : ChannelMessage → Io (World c E x) (Unit {0})
  unfolding publish_or_log
  handle_channel_message (broadcast topic bytes) = publish_or_log topic bytes
  handle_channel_message (unicast peer_id bytes) = do
    decoded ← or_fail (x.p2p.hex_decode peer_id) "hex"
    peer ← or_fail (x.p2p.peer_id_from_bytes decoded) "Invalid peer ID"
    on_swarm (λ swarm. x.p2p.send_request swarm peer (RpcRequest.custom "custom" bytes))

  -- `NetworkLayer::broadcast` and `send_direct_message`
  send_message : ChannelMessage → Io (World c E x) (Unit {0})
  send_message msg w =
      let (r, ch) = send msg w.layer.message_channel in
      (r, record w { layer = record w.layer { message_channel = ch } })

  unfoldable pub broadcast_message : String → Bytes → Io (World c E x) (Unit {0})
  unfolding send_message
  broadcast_message topic bytes = send_message (broadcast topic bytes)

  unfoldable pub send_direct_message : String → Bytes → Io (World c E x) (Unit {0})
  unfolding send_message
  send_direct_message peer_id bytes = send_message (unicast peer_id bytes)

  -- `recv()`: the oldest message is taken; an empty channel gives nothing to do.
  receive : List ChannelMessage → Io (World c E x) (Unit {0})
  receive [] = pure tt
  receive (msg ∷ rest) = do
    on_layer
        (λ layer. record layer { message_channel = record layer.message_channel { queue = rest } })
    handle_channel_message msg

  unfoldable pub step : (ℕ → c.Scalar) → Input c → Io (World c E x) (Unit {0})
  unfolding receive
  step rng (swarm_event event) w = handle_swarm_event rng event w
  step rng channel_ready w = receive w.layer.message_channel.queue w

  -- The loop of `start` on the inputs that come; the `n`-th step draws from `rng n`.
  unfoldable pub run : (ℕ → ℕ → c.Scalar) → List (Input c) → Io (World c E x) (Unit {0})
  run rng [] = pure tt
  run rng (input ∷ rest) = do step (rng 0) input; run (λ n. rng (ℕ.suc n)) rest
