-- ===== src/GossipLayer/Cache.antt =====
-- The ids that gossipsub remembers, in src/network_layer.rs, and what a refusal to publish does to the
-- methods of src/adkg_layer.bkp.rs.
use mpc_node.Common.{
  ◌≡◌, ◌≢◌, refl, arith, String, Bool, true, none, some, Option-cases, inl, inr, List, ok,
}
use mpc_node.Crypto.{Curve}
use mpc_node.Wire.{Json, Bytes, Gossip}
use mpc_node.Rpc.{PeerId}
use mpc_node.Adkg
use mpc_node.Adkg.{
  AdkgNode, AdkgMessage, share_ack, share_proposal, publish, verify_commitments, handle_message,
}
use mpc_node.Adkg.Backed.{verify_commitments-true}
use mpc_node.Adkg.Completion.{stored}
use mpc_node.Adkg.Keeps.{store_share-stored}
use mpc_node.GossipLayer.{Behaviour, Event}

-- The ids that gossipsub remembers, for as long as none of them has expired: it refuses to publish a
-- message under such an id, and remembers the ids of what it publishes.
pub record Cache (b : Behaviour) (id_of : Bytes → String) : Type 0 where
  pub seen : b.Swarm → String → Bool
  pub publish-seen :
      (s : b.Swarm) (topic : String) (bytes : Bytes)
      → seen s (id_of bytes) ≡ true
      → b.publish s topic bytes ≡ none
  pub seen-publish :
      (s s' : b.Swarm) (topic : String) (bytes : Bytes)
      → b.publish s topic bytes ≡ some s'
      → seen s' (id_of bytes) ≡ true
  pub kept-publish :
      (s s' : b.Swarm) (topic : String) (bytes : Bytes) (id : String)
      → b.publish s topic bytes ≡ some s'
      → seen s id ≡ true
      → seen s' id ≡ true
  pub kept-add :
      (s : b.Swarm) (p : PeerId) (id : String)
      → seen s id ≡ true
      → seen (b.add_explicit_peer s p) id ≡ true
  pub kept-remove :
      (s : b.Swarm) (p : PeerId) (id : String)
      → seen s id ≡ true
      → seen (b.remove_explicit_peer s p) id ≡ true
  pub kept-poll :
      (s : b.Swarm) (event : Event) (id : String)
      → seen s id ≡ true
      → seen (b.poll s event) id ≡ true

module _ (c : Curve) (g : Gossip) (json : Json (AdkgMessage c)) where
  -- A proposal that passes is stored, and its acknowledgement is published.
  pub handle_message_publishes :
      (w : Adkg.World c g) (sender_id : String) (shares : List c.Scalar)
      (commitments : List c.G1Affine)
      → verify_commitments c w.node sender_id shares commitments ≡ ok true
      → (node : AdkgNode c) × (node.id ≡ w.node.id)
        × (node.idx ≡ w.node.idx)
        × (handle_message c g json (share_proposal sender_id shares commitments) w
            ≡ publish c g json
                (share_ack w.node.id sender_id true)
                "Failed to publish ACK"
                (record w { node = node }))
  unfolding handle_message
  handle_message_publishes w sender_id shares commitments v =
      let (share, lo, hi, at, fits) =
        verify_commitments-true c w.node sender_id shares commitments v in
      (
        stored c g json w.node sender_id share commitments,
        refl,
        refl,
        rw
            (
              v,
              store_share-stored c g json (λ _. Unit {0}) w sender_id shares commitments share lo hi
                  at,
            )
            refl,
      )

  pub publish-ok :
      (msg : AdkgMessage c) (error : String) (w : Adkg.World c g)
      → (publish c g json msg error w).0 ≡ ok tt
      → (bytes : Bytes) × (s : g.Swarm) × (json.to_vec msg ≡ some bytes)
        × (g.publish w.swarm "/adkg/1.0.0" bytes ≡ some s)
        × ((publish c g json msg error w).1 ≡ record w { swarm = s })
  unfolding publish
  publish-ok msg error w h = elim (Option-cases (json.to_vec msg)) [
    | inl e ↦ absurd (ground (arith, h, e))
    | inr (bytes, e) ↦ elim (Option-cases (g.publish w.swarm "/adkg/1.0.0" bytes)) [
      | inl refused ↦ absurd (ground (arith, h, e, refused))
      | inr (s, p) ↦ (bytes, s, e, p, rw (e, p) refl)
    ]
  ]

  pub publish-refused :
      (msg : AdkgMessage c) (error : String) (w : Adkg.World c g)
      → ((bytes : Bytes)
          → json.to_vec msg ≡ some bytes
          → g.publish w.swarm "/adkg/1.0.0" bytes ≡ none)
      → (publish c g json msg error w).0 ≢ ok tt
  unfolding publish
  publish-refused msg error w refuses = elim (Option-cases (json.to_vec msg)) [
    | inl e ↦ λ h. ground (arith, h, e)
    | inr (bytes, e) ↦ λ h. ground (arith, h, e, refuses bytes e)
  ]
