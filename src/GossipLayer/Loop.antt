-- ===== src/GossipLayer/Loop.antt =====
-- The start of `run` in src/network_layer.rs: the proposal of the ADKG node goes out before the loop
-- has handled any event, when gossipsub may know nobody to send it to.
use mpc_node.Common.{ℕ, ◌≡◌, refl, String, none, some, List, [], Option-cases, inl, inr, err}
use mpc_node.Crypto.{Curve}
use mpc_node.Wire.{Json, Bytes}
use mpc_node.Adkg
use mpc_node.Adkg.{AdkgMessage, start_adkg, generate_polynomial, publish}
use mpc_node.Adkg.Protocol.{proposal_of}
use mpc_node.Adkg.Start.{own_dealer}
use mpc_node.GossipLayer.{Behaviour, gossip, Event, on_adkg, subscribe_to, listen_to, prepare, run}

module _ (c : Curve) (b : Behaviour) (json : Json (AdkgMessage c)) where
  -- Where the listeners come up and gossipsub takes both subscriptions, and then refuses to publish on
  -- the topic of the ADKG node, as it does while it knows no peer, `run` ends with an error, handles
  -- none of the events, and the node has not even kept its own commitments.
  pub run_refused :
      (node_id : String) (n t idx : ℕ) (rng : ℕ → c.Scalar) (swarm s s' u u' : b.Swarm)
      (udp tcp : b.Multiaddr) (events : List Event)
      → b.subscribe swarm "test-net" ≡ some s
      → b.subscribe s "/adkg/1.0.0" ≡ some s'
      → b.parse_multiaddr "/ip4/0.0.0.0/udp/0/quic-v1" ≡ some udp
      → b.listen_on s' udp ≡ some u
      → b.parse_multiaddr "/ip4/0.0.0.0/tcp/0" ≡ some tcp
      → b.listen_on u tcp ≡ some u'
      → ((bytes : Bytes) → b.publish u' "/adkg/1.0.0" bytes ≡ none)
      → (error : String) × (run c b json node_id n t idx rng swarm events
          ≡ (err error, record { node = Adkg.new c node_id n t idx; swarm = u'; peer_list = [] }))
  unfolding run prepare subscribe_to listen_to on_adkg start_adkg generate_polynomial publish
  run_refused node_id n t idx rng swarm s s' u u' udp tcp events e e' p l p' l' refuses =
      elim (Option-cases (
        json.to_vec (
          proposal_of c (gossip b) json n (
            own_dealer c (gossip b) json
              (record { node = Adkg.new c node_id n t idx; swarm = swarm }) rng)))) [
                | inl no_text ↦ ("serde_json", rw (e, e', p, l, p', l', no_text) refl)
                | inr (bytes, text) ↦ (
                  "Failed to publish message",
                  rw (e, e', p, l, p', l', text, refuses bytes) refl,
                )
              ]
