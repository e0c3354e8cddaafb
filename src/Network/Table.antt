-- ===== src/Network/Table.antt =====
-- The table of peers of src/network/mod.rs over whole runs of the event loop.
use mpc_node.Common.{
  ℕ, suc, ◌≡◌, ◌≢◌, ◌⊎◌, inl, inr, refl, ap, ◌∙◌, Bool, true, Option, some, List, [], ◌∷◌, ◌++◌,
  arith, if◌then◌else◌, Outcome, ok, err, panicked, blocked, pure, and_then, Option-cases,
}
use mpc_node.Common.HashMap.{HashMap}
use mpc_node.Common.Keeps.{Keeps, Keeps-step, Keeps-unwrap, Keeps-or_fail}
use mpc_node.Crypto.{Curve}
use mpc_node.Wire.{Bytes}
use mpc_node.Types.{
  ChannelMessage, broadcast, unicast, GossipsubMessage, dkg, signing, command, consensus,
}
use mpc_node.Rpc.{PeerId, PeerInfo, RpcRequest, RpcResponse}
use mpc_node.Dkg
use mpc_node.Network.{Crates, World, SwarmEvent, Input, swarm_event, channel_ready}
use mpc_node.Network.Requests.{respond}
use mpc_node.Network.Routing.{route, on_dkg, handle_gossipsub_message}
use mpc_node.Network.EventLoop.{handle_swarm_event, handle_channel_message, step, run}
use mpc_node.Network.Status.{status, named, gone, status-add_discovered, status-expire}

module _ (c : Curve) (E : Type 0) (x : Crates c) where
  -- What an input says of one peer.
  unfoldable pub seen : PeerId → Input c → Option Bool → Option Bool
  seen q (swarm_event (SwarmEvent.discovered found)) s = if named q found then some true else s
  seen q (swarm_event (SwarmEvent.expired list)) s = if named q list then gone s else s
  seen q (swarm_event _) s = s
  seen q channel_ready s = s

  unfoldable pub history : PeerId → List (Input c) → Option Bool → Option Bool
  history q [] s = s
  history q (input ∷ inputs) s = history q inputs (seen q input s)

  -- The table is this one.
  abbrev HasTable : HashMap PeerInfo → World c E x → Type 0
  HasTable peers w = w.layer.peers ≡ peers

  route-HasTable :
      (peers : HashMap PeerInfo) (msg : GossipsubMessage c)
      → Keeps (HasTable peers) (route c E x msg)
  unfolding route on_dkg
  route-HasTable peers (dkg msg) w h = elim (Option-cases w.layer.dkg_node) [
    | inl e ↦ ground (arith, e, h)
    | inr (node, e) ↦ ground (arith, e, h)
  ]
  route-HasTable peers (signing msg) w h = elim (Option-cases w.layer.signing_node) [
    | inl e ↦ ground (arith, e, h)
    | inr (node, e) ↦ ground (arith, e, h)
  ]
  route-HasTable peers (command cmd) w h = elim (Option-cases w.layer.command_processor) [
    | inl e ↦ ground (arith, e, h)
    | inr (processor, e) ↦ ground (arith, e, h)
  ]
  route-HasTable peers (consensus msg) w h = elim (Option-cases w.layer.consensus_node) [
    | inl e ↦ ground (arith, e, h)
    | inr (node, e) ↦ ground (arith, e, h)
  ]

  gossip-HasTable :
      (peers : HashMap PeerInfo) (bytes : Bytes)
      → Keeps (HasTable peers) (handle_gossipsub_message c E x bytes)
  unfolding handle_gossipsub_message
  gossip-HasTable peers bytes w h =
      Keeps-unwrap (HasTable peers) (x.json.from_slice bytes) (route c E x) w h
        (λ msg e. route-HasTable peers msg w h)

  respond-HasTable :
      (peers : HashMap PeerInfo) (rng : ℕ → c.Scalar) (peer : PeerId) (request : RpcRequest c)
      → Keeps (HasTable peers) (respond c E x rng peer request)
  unfolding respond on_dkg
  respond-HasTable peers rng peer RpcRequest.ping w h = h
  respond-HasTable peers rng peer RpcRequest.get_peer_info w h = h
  respond-HasTable peers rng peer (RpcRequest.custom id bytes) w h = h
  respond-HasTable peers rng peer RpcRequest.start_adkg w h = elim (Option-cases w.layer.dkg_node) [
    | inl e ↦ ground (arith, e, h)
    | inr (node, e) ↦ rw e (
        Keeps-step (HasTable peers) (on_dkg c E x (Dkg.start_dkg c x.json rng) (some node) w)
          (λ _. pure (RpcResponse.dkg_started peer)) h (λ a ran. h))
  ]
  respond-HasTable peers rng peer RpcRequest.get_dkg_status w h = h
  respond-HasTable peers rng peer (RpcRequest.send_avss_share dealer receiver share commitments) w
        h =
      h
  respond-HasTable peers rng peer RpcRequest.start_dkg w h = h
  respond-HasTable peers rng peer (RpcRequest.broadcast_commitments p commitments) w h = h
  respond-HasTable peers rng peer (RpcRequest.submit_complaint p q reason) w h = h
  respond-HasTable peers rng peer (RpcRequest.declare_adkg_complete p share) w h = h

  channel-HasTable :
      (peers : HashMap PeerInfo) (msg : ChannelMessage)
      → Keeps (HasTable peers) (handle_channel_message c E x msg)
  unfolding handle_channel_message
  channel-HasTable peers (broadcast topic bytes) w h =
      elim (Option-cases (x.p2p.publish w.swarm topic bytes)) [
        | inl e ↦ ground (arith, e, h)
        | inr (swarm, e) ↦ ground (arith, e, h)
      ]
  channel-HasTable peers (unicast peer_id bytes) w h =
      Keeps-or_fail (HasTable peers) (x.p2p.hex_decode peer_id) "hex" _ w h (λ decoded e.
        Keeps-or_fail (HasTable peers) (x.p2p.peer_id_from_bytes decoded) "Invalid peer ID" _ w h
          (λ peer e'. h))

  status-handle_swarm_event :
      (q : PeerId) (rng : ℕ → c.Scalar) (event : SwarmEvent c) (w : World c E x)
      → status q (handle_swarm_event c E x rng event w).1.layer.peers
        ≡ seen q (swarm_event event) (status q w.layer.peers)
  unfolding handle_swarm_event seen
  status-handle_swarm_event q rng (SwarmEvent.discovered found) w =
      status-add_discovered q found w.layer.peers
  status-handle_swarm_event q rng (SwarmEvent.expired list) w = status-expire q list w.layer.peers
  status-handle_swarm_event q rng (SwarmEvent.request peer request channel) w = ap (status q) (
      Keeps-step (HasTable w.layer.peers) (respond c E x rng peer request w) _
        (respond-HasTable w.layer.peers rng peer request w refl)
        (λ answer e. respond-HasTable w.layer.peers rng peer request w refl))
  status-handle_swarm_event q rng (SwarmEvent.gossipsub_message bytes) w =
      ap (status q) (gossip-HasTable w.layer.peers bytes w refl)
  status-handle_swarm_event q rng (SwarmEvent.response peer msg) w = refl
  status-handle_swarm_event q rng (SwarmEvent.outbound_failure peer) w = refl
  status-handle_swarm_event q rng (SwarmEvent.inbound_failure peer) w = refl
  status-handle_swarm_event q rng (SwarmEvent.response_sent peer) w = refl
  status-handle_swarm_event q rng (SwarmEvent.subscribed peer topic) w = refl
  status-handle_swarm_event q rng (SwarmEvent.new_listen_addr address) w = refl
  status-handle_swarm_event q rng (SwarmEvent.connection_closed peer) w = refl
  status-handle_swarm_event q rng SwarmEvent.other w = refl

  receive-HasTable :
      (peers : HashMap PeerInfo) (rng : ℕ → c.Scalar) (queue : List ChannelMessage)
      (w : World c E x)
      → w.layer.message_channel.queue ≡ queue
      → HasTable peers w
      → HasTable peers (step c E x rng channel_ready w).1
  unfolding step
  receive-HasTable peers rng [] w e h = rw e h
  receive-HasTable peers rng (msg ∷ rest) w e h = rw e (
      channel-HasTable peers msg
        (record w {
          layer = record w.layer {
            message_channel = record w.layer.message_channel { queue = rest };
          };
        })
        h)

  status-step :
      (q : PeerId) (rng : ℕ → c.Scalar) (input : Input c) (w : World c E x)
      → status q (step c E x rng input w).1.layer.peers ≡ seen q input (status q w.layer.peers)
  unfolding step seen
  status-step q rng (swarm_event event) w = status-handle_swarm_event q rng event w
  status-step q rng channel_ready w =
      ap (status q) (receive-HasTable w.layer.peers rng w.layer.message_channel.queue w refl refl)

  -- A run that has handled some inputs, all of them unless it has failed, and what the table then
  -- says of one peer.
  abbrev pub Handles :
      PeerId → List (Input c) → World c E x → Outcome (Unit {0}) × World c E x → Type 0
  Handles q inputs w end =
      (before after : List (Input c)) × (inputs ≡ before ++ after)
      × ((after ≡ []) ⊎ (end.0 ≢ ok tt))
      × (status q end.1.layer.peers ≡ history q before (status q w.layer.peers))

  Handles-and_then :
      (q : PeerId) (rng : ℕ → ℕ → c.Scalar) (input : Input c) (inputs : List (Input c))
      (w : World c E x) (r : Outcome (Unit {0}) × World c E x)
      → status q r.1.layer.peers ≡ seen q input (status q w.layer.peers)
      → Handles q inputs r.1 (run c E x rng inputs r.1)
      → Handles q (input ∷ inputs) w (and_then r (λ _. run c E x rng inputs))
  unfolding history
  Handles-and_then q rng input inputs w (ok u, w') e (before, after, split, ends, same) =
      (input ∷ before, after, ap (λ l. input ∷ l) split, ends, same ∙ ap (history q before) e)
  Handles-and_then q rng input inputs w (err m, w') e h =
      (input ∷ [], inputs, refl, inr (λ p. cc), e)
  Handles-and_then q rng input inputs w (panicked, w') e h =
      (input ∷ [], inputs, refl, inr (λ p. cc), e)
  Handles-and_then q rng input inputs w (blocked, w') e h =
      (input ∷ [], inputs, refl, inr (λ p. cc), e)

  -- What the table of peers says of one peer after any run of the event loop is what the inputs that
  -- were handled say of it, taken in order: connected after a discovery that names it, not connected
  -- after an expiration that names it if it was known, and else as before. All inputs were
  -- handled unless the run has failed.
  pub run-Handles :
      (q : PeerId) (rng : ℕ → ℕ → c.Scalar) (inputs : List (Input c)) (w : World c E x)
      → Handles q inputs w (run c E x rng inputs w)
  unfolding run history
  run-Handles q rng [] w = ([], [], refl, inl refl, refl)
  run-Handles q rng (input ∷ inputs) w =
      let r = step c E x (rng 0) input w in
      Handles-and_then q (λ n. rng (suc n)) input inputs w r (status-step q (rng 0) input w)
        (run-Handles q (λ n. rng (suc n)) inputs r.1)
