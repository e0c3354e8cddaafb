-- ===== src/Network/Delivery.antt =====
-- From a request of a peer to the message on the wire: `handle_swarm_event`, `start_dkg` and
-- `handle_channel_message` of src/network/mod.rs and src/dkg/mod.rs together.
use mpc_node.Common.{ℕ, ◌<◌, ◌≡◌, ap, Option, none, some, [], ◌∷◌, ◌++◌, length, true, arith, ok}
use mpc_node.Crypto.{Curve}
use mpc_node.Wire.{Bytes}
use mpc_node.Types.{DkgStatus, broadcast, share_distribution, dkg, ChannelMessage}
use mpc_node.Rpc.{PeerId, RpcRequest, RpcResponse}
use mpc_node.Dkg.{
  DkgNode, generate_polynomial, generate_shares, generate_commitments, msg_topic_dkg,
}
use mpc_node.Dkg.Shares.{start_dkg_broadcasts}
use mpc_node.Network.{World, Crates, SwarmEvent, swarm_event, channel_ready}
use mpc_node.Network.Requests.{respond}
use mpc_node.Network.EventLoop.{handle_swarm_event, handle_channel_message, step, run}

module _ (c : Curve) (E : Type 0) (x : Crates c) where
  -- The message that a start of the node deals out.
  abbrev pub dealt : DkgNode c → (ℕ → c.Scalar) → Option Bytes
  dealt node rng = x.json.to_vec (
      dkg (
        share_distribution node.id (generate_shares c node (generate_polynomial c node rng))
          (generate_commitments c (generate_polynomial c node rng))))

  -- The world after a start that the channel had room for, and after the response to it.
  abbrev pub after_start : World c E x → DkgNode c → Bytes → PeerId → ℕ → World c E x
  after_start w node bytes peer response_channel = record w {
    layer = record w.layer {
      dkg_node = some (record node { status = DkgStatus.started });
      message_channel = record w.layer.message_channel {
        queue = w.layer.message_channel.queue ++ broadcast msg_topic_dkg bytes ∷ [];
      };
    };
    swarm = x.p2p.send_response w.swarm response_channel (RpcResponse.dkg_started peer);
  }

  -- A peer's `StartADKG` at a node with a DKG component: the component is started, its shares are
  -- queued, and the peer is told.
  pub handle_swarm_event_start :
      (w : World c E x) (rng : ℕ → c.Scalar) (peer : PeerId) (response_channel : ℕ)
      (node : DkgNode c) (bytes : Bytes)
      → w.layer.dkg_node ≡ some node
      → w.layer.message_channel.receiving ≡ true
      → length w.layer.message_channel.queue < w.layer.message_channel.capacity
      → dealt node rng ≡ some bytes
      → handle_swarm_event c E x rng
          (SwarmEvent.request peer RpcRequest.start_adkg response_channel)
          w
        ≡ (ok tt, after_start w node bytes peer response_channel)
  unfolding handle_swarm_event respond
  handle_swarm_event_start w rng peer response_channel node bytes e op room v = ground (
    arith,
    e,
    start_dkg_broadcasts c x.json (record { node = node; channel = w.layer.message_channel }) rng
        bytes op room v,
  )

  -- Without a DKG component the peer gets an error, and nothing else happens.
  pub handle_swarm_event_no_node :
      (w : World c E x) (rng : ℕ → c.Scalar) (peer : PeerId) (response_channel : ℕ)
      → w.layer.dkg_node ≡ none
      → handle_swarm_event c E x rng
          (SwarmEvent.request peer RpcRequest.start_adkg response_channel)
          w
        ≡ (
          ok tt,
          record w {
            swarm =
                x.p2p.send_response w.swarm response_channel
                  (RpcResponse.dkg_error "dkg is not initialized.");
          },
        )
  unfolding handle_swarm_event respond
  handle_swarm_event_no_node w rng peer response_channel e = ground (arith, e)

  -- Two rounds of the loop, the request and then the channel, at a node with a DKG component
  -- whose message can be written and is taken by gossipsub: from an empty channel the shares that
  -- the node dealt are published on the DKG topic, the channel is empty again, and the node has
  -- started.
  pub run_start_delivers :
      (w : World c E x) (rng : ℕ → ℕ → c.Scalar) (peer : PeerId) (response_channel : ℕ)
      (node : DkgNode c) (bytes : Bytes) (swarm : x.p2p.Swarm)
      → w.layer.dkg_node ≡ some node
      → w.layer.message_channel.receiving ≡ true
      → w.layer.message_channel.queue ≡ []
      → 0 < w.layer.message_channel.capacity
      → dealt node (rng 0) ≡ some bytes
      → x.p2p.publish
          (x.p2p.send_response w.swarm response_channel (RpcResponse.dkg_started peer))
          msg_topic_dkg
          bytes
        ≡ some swarm
      → run c E x rng
          (swarm_event (SwarmEvent.request peer RpcRequest.start_adkg response_channel)
            ∷ channel_ready
            ∷ [])
          w
        ≡ (
          ok tt,
          record w {
            layer = record w.layer { dkg_node = some (record node { status = DkgStatus.started }) };
            swarm = swarm;
          },
        )
  unfolding run step handle_channel_message
  run_start_delivers w rng peer response_channel node bytes swarm e op empty cap v published =
      ground (
        arith,
        e,
        empty,
        published,
        handle_swarm_event_start w (rng 0) peer response_channel node bytes e op
            (omega (arith, ap (length {A = ChannelMessage}) empty, cap)) v,
      )
