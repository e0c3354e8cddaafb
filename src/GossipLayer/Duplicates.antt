-- ===== src/GossipLayer/Duplicates.antt =====
-- Messages of the same bytes in src/network_layer.rs: gossipsub does not publish a message again whose id
-- it has seen, the id is made from the data alone, and an acknowledgement names only its sender and
-- its receiver.
use mathlib.Core.Path.{subst}
use mpc_node.Common.{
  ℕ, ◌≡◌, ◌≢◌, refl, sym, ap, ◌∙◌, String, true, some, List, [], ◌∷◌, ◌++◌, ok, and_then-ok,
}
use mpc_node.Common.Keeps.{Keeps}
use mpc_node.Crypto.{Curve}
use mpc_node.Wire.{Json, Bytes}
use mpc_node.Rpc.{PeerId}
use mpc_node.Adkg
use mpc_node.Adkg.{
  AdkgNode, AdkgMessage, share_ack, share_proposal, publish, verify_commitments, handle_message,
}
use mpc_node.Adkg.Completion.{stored}
use mpc_node.Adkg.Keeps.{SendKept, handle_message-Keeps}
use mpc_node.Swarm.{Libraries, message_id}
use mpc_node.GossipLayer.{
  Behaviour, gossip, Event, gossip_message, World, on_adkg, handle_gossip, handle_event, run_loop,
}
use mpc_node.GossipLayer.Cache.{Cache, handle_message_publishes, publish-ok, publish-refused}
use mpc_node.GossipLayer.Keeps.{LoopKept, handle_event-Keeps}

module _ (c : Curve) (b : Behaviour) (json : Json (AdkgMessage c)) (l : Libraries)
    (cache : Cache b (message_id l)) where
  module _ (me : String) (idx : ℕ) (sender_id : String) where
    -- The node has its name and its index, and gossipsub has seen its acknowledgement to the sender.
    abbrev Acked : Adkg.World c (gossip b) → Type 0
    Acked a =
        (a.node.id ≡ me)
        × (a.node.idx ≡ idx)
        × ((bytes : Bytes)
            → json.to_vec (share_ack me sender_id true) ≡ some bytes
            → cache.seen a.swarm (message_id l bytes) ≡ true)

    send_kept :
        (a : Adkg.World c (gossip b)) (msg : AdkgMessage c) → SendKept c (gossip b) json Acked a msg
    send_kept a msg bytes swarm e p h = (
      h.0,
      h.1,
      λ ack t.
          cache.kept-publish a.swarm swarm "/adkg/1.0.0" bytes (message_id l ack) p (h.2 ack t),
    )

    abbrev IsAcked : World c b → Type 0
    IsAcked w = Acked (record { node = w.node; swarm = w.swarm })

    handled-IsAcked :
        (msg : AdkgMessage c)
        → Keeps IsAcked (on_adkg c b json (handle_message c (gossip b) json msg))
    unfolding on_adkg
    handled-IsAcked msg w h =
        handle_message-Keeps c (gossip b) json Acked msg (λ a hp. hp) (λ a key e hp. hp)
          (λ a sender valid e hp. hp)
          (λ a sender share commitments.
            send_kept (record a { node = stored c (gossip b) json a.node sender share commitments })
              (share_ack a.node.id sender true))
          (λ a sender shares commitments share e at v hp. hp)
          (record { node = w.node; swarm = w.swarm }) h

    loop-IsAcked : LoopKept c b json IsAcked
    loop-IsAcked = record {
      published = λ w swarm topic bytes e h. (
        h.0,
        h.1,
        λ ack t. cache.kept-publish w.swarm swarm topic bytes (message_id l ack) e (h.2 ack t),
      );
      polled = λ w event h.
          (h.0, h.1, λ ack t. cache.kept-poll w.swarm event (message_id l ack) (h.2 ack t));
      added = λ w p h. (h.0, h.1, λ ack t. cache.kept-add w.swarm p (message_id l ack) (h.2 ack t));
      removed =
          λ w p h. (h.0, h.1, λ ack t. cache.kept-remove w.swarm p (message_id l ack) (h.2 ack t));
      handled = handled-IsAcked;
    }

    -- The first proposal that passes leaves the acknowledgement behind.
    accepted-Acked :
        (a : Adkg.World c (gossip b)) (shares : List c.Scalar) (commitments : List c.G1Affine)
        → a.node.id ≡ me
        → a.node.idx ≡ idx
        → verify_commitments c a.node sender_id shares commitments ≡ ok true
        → let after =
            handle_message c (gossip b) json (share_proposal sender_id shares commitments) a in
          after.0 ≡ ok tt → Acked after.1
    accepted-Acked a shares commitments named at v h =
        let (node, e, e', same) =
          handle_message_publishes c (gossip b) json a sender_id shares commitments v in
        let ack : AdkgMessage c = share_ack a.node.id sender_id true in
        let sent : Adkg.World c (gossip b) = record a { node = node } in
        let went : (publish c (gossip b) json ack "Failed to publish ACK" sent).0 ≡ ok tt =
          ap (λ r. r.0) (sym same) ∙ h in
        let (bytes, swarm, text, p, state) =
          publish-ok c (gossip b) json ack "Failed to publish ACK" sent went in
        subst Acked (sym (ap (λ r. r.1) same ∙ state)) (
          e ∙ named,
          e' ∙ at,
          λ bytes' t.
              let one : some bytes ≡ some bytes' =
                sym text ∙ ap (λ n. json.to_vec (share_ack n sender_id true)) named ∙ t in
              let again : bytes ≡ bytes' = cc in
              ap (λ y. cache.seen swarm (message_id l y)) (sym again)
              ∙ cache.seen-publish a.swarm swarm "/adkg/1.0.0" bytes p,
        )

    -- The second one cannot be acknowledged.
    refused_twice :
        (a : Adkg.World c (gossip b)) (shares : List c.Scalar) (commitments : List c.G1Affine)
        → Acked a
        → verify_commitments c a.node sender_id shares commitments ≡ ok true
        → (handle_message c (gossip b) json (share_proposal sender_id shares commitments) a).0
          ≢ ok tt
    refused_twice a shares commitments (named, at, seen) v h =
        let (node, e, e', same) =
          handle_message_publishes c (gossip b) json a sender_id shares commitments v in
        publish-refused c (gossip b) json (share_ack a.node.id sender_id true)
          "Failed to publish ACK" (record a { node = node })
          (λ bytes t.
            cache.publish-seen a.swarm "/adkg/1.0.0" bytes
              (seen bytes (ap (λ n. json.to_vec (share_ack n sender_id true)) (sym named) ∙ t)))
          (ap (λ r. r.0) (sym same) ∙ h)

  verify_commitments-idx :
      (node node' : AdkgNode c) (sender_id : String) (shares : List c.Scalar)
      (commitments : List c.G1Affine)
      → node.idx ≡ node'.idx
      → verify_commitments c node sender_id shares commitments
        ≡ verify_commitments c node' sender_id shares commitments
  unfolding verify_commitments
  verify_commitments-idx node node' sender_id shares commitments e =
      ap (λ i. verify_commitments c (record node { idx = i }) sender_id shares commitments) e

  -- A proposal, as a gossip message.
  module _ (peer_id : PeerId) (bytes : Bytes) (sender_id : String) (shares : List c.Scalar)
      (commitments : List c.G1Affine)
      (read : json.from_slice bytes ≡ some (share_proposal sender_id shares commitments)) where
    handle_event-proposal :
        (w : World c b)
        → handle_event c b json (gossip_message peer_id bytes) w
          ≡ on_adkg c b json
              (handle_message c (gossip b) json (share_proposal sender_id shares commitments))
              w
    unfolding handle_event handle_gossip
    handle_event-proposal w = rw read refl

    -- However many events come first, the loop ends at the latest with the proposal that cannot be
    -- acknowledged.
    run_loop-acked :
        (events later : List Event) (w : World c b)
        → IsAcked w.node.id w.node.idx sender_id w
        → verify_commitments c w.node sender_id shares commitments ≡ ok true
        → (run_loop c b json (events ++ gossip_message peer_id bytes ∷ later) w).0 ≢ ok tt
    unfolding run_loop on_adkg
    run_loop-acked [] later w acked v h =
        let polled : World c b = record w {
          swarm = b.poll w.swarm (gossip_message peer_id bytes);
        } in
        let (u, returned, rest) =
          and_then-ok (handle_event c b json (gossip_message peer_id bytes) polled)
            (λ _. run_loop c b json later) h in
        refused_twice w.node.id w.node.idx sender_id
          (record { node = w.node; swarm = polled.swarm }) shares commitments
          ((loop-IsAcked w.node.id w.node.idx sender_id).polled w (gossip_message peer_id bytes)
            acked)
          v (ap (λ r. r.0) (sym (handle_event-proposal polled)) ∙ returned)
    run_loop-acked (event ∷ events) later w acked v h =
        let polled : World c b = record w { swarm = b.poll w.swarm event } in
        let handled = handle_event c b json event polled in
        let (u, returned, rest) =
          and_then-ok handled
            (λ _. run_loop c b json (events ++ gossip_message peer_id bytes ∷ later)) h in
        let kept = loop-IsAcked w.node.id w.node.idx sender_id in
        let still : IsAcked w.node.id w.node.idx sender_id handled.1 =
          handle_event-Keeps c b json (IsAcked w.node.id w.node.idx sender_id) kept event polled
            (kept.polled w event acked) in
        run_loop-acked events later handled.1
          (subst (λ n. IsAcked n handled.1.node.idx sender_id handled.1) (sym still.0)
            (subst (λ i. IsAcked w.node.id i sender_id handled.1) (sym still.1) still))
          (verify_commitments-idx handled.1.node w.node sender_id shares commitments still.1 ∙ v)
          (ap (λ r. r.0) (sym rest) ∙ h)

  -- As long as gossipsub forgets no message id: where a node gets two proposals under one name, whatever
  -- events come in between, and each of them would pass at the node as it is before the first, then
  -- the loop does not get beyond the second; the two may be different, and of anyone.
  pub run_loop-two_proposals :
      (w : World c b) (peer_id peer_id' : PeerId) (bytes bytes' : Bytes) (sender_id : String)
      (shares shares' : List c.Scalar) (commitments commitments' : List c.G1Affine)
      (between later : List Event)
      → json.from_slice bytes ≡ some (share_proposal sender_id shares commitments)
      → json.from_slice bytes' ≡ some (share_proposal sender_id shares' commitments')
      → verify_commitments c w.node sender_id shares commitments ≡ ok true
      → verify_commitments c w.node sender_id shares' commitments' ≡ ok true
      → (run_loop c b json
          (gossip_message peer_id bytes ∷ (between ++ gossip_message peer_id' bytes' ∷ later))
          w).0
        ≢ ok tt
  unfolding run_loop on_adkg
  run_loop-two_proposals w peer_id peer_id' bytes bytes' sender_id shares shares' commitments
        commitments' between later read read' v v' h =
      let polled : World c b = record w { swarm = b.poll w.swarm (gossip_message peer_id bytes) } in
      let a : Adkg.World c (gossip b) = record { node = w.node; swarm = polled.swarm } in
      let handled = handle_event c b json (gossip_message peer_id bytes) polled in
      let (u, returned, rest) =
        and_then-ok handled
          (λ _. run_loop c b json (between ++ gossip_message peer_id' bytes' ∷ later)) h in
      let same = handle_event-proposal peer_id bytes sender_id shares commitments read polled in
      let acked : IsAcked w.node.id w.node.idx sender_id handled.1 =
        subst (IsAcked w.node.id w.node.idx sender_id) (sym (ap (λ r. r.1) same)) (
          accepted-Acked w.node.id w.node.idx sender_id a shares commitments refl refl v
            (ap (λ r. r.0) (sym same) ∙ returned)) in
      run_loop-acked peer_id' bytes' sender_id shares' commitments' read' between later handled.1
        (subst (λ n. IsAcked n handled.1.node.idx sender_id handled.1) (sym acked.0)
          (subst (λ i. IsAcked w.node.id i sender_id handled.1) (sym acked.1) acked))
        (verify_commitments-idx handled.1.node w.node sender_id shares' commitments' acked.1 ∙ v')
        (ap (λ r. r.0) (sym rest) ∙ h)
