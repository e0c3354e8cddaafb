-- ===== src/Network/Ready.antt =====
-- What `start` of src/network/mod.rs has done when its loop begins.
use mathlib.Core.Path.{subst}
use mathlib.Core.List.{append_assoc, append-nil}
use mpc_node.Common.{
  ◌≡◌, refl, sym, ap, ◌∙◌, arith, String, none, some, Option-cases, inl, inr, List, [], ◌∷◌, ◌++◌,
  ok, Io, and_then-ok, get_elem?, ◌>>◌,
}
use mpc_node.Crypto.{Curve}
use mpc_node.Dkg.{msg_topic_dkg}
use mpc_node.Swarm.{Libraries}
use mpc_node.Network.{Crates, NetworkLayer, World}
use mpc_node.Network.EventLoop.{subscribe_all, subscribe_to_default_topics}
use mpc_node.Network.Setup.{SwarmBuilder, Status, listen_to, dial_argument, prepare}

abbrev pub default_topics : List String
default_topics = msg_topic_dkg ∷ "signing" ∷ "consensus" ∷ "commands" ∷ []

module _ (c : Curve) (E : Type 0) (x : Crates c) (l : Libraries)
    (builder : SwarmBuilder c l x.p2p) where
  open builder use {Multiaddr, parse_multiaddr, status}

  listen_to-ok :
      (text : String) (w : World c E x)
      → (listen_to c E x l builder text w).0 ≡ ok tt
      → (address : Multiaddr) × (s : x.p2p.Swarm) × (parse_multiaddr text ≡ some address)
        × (builder.listen_on w.swarm address ≡ some s)
        × ((listen_to c E x l builder text w).1 ≡ record w { swarm = s })
  unfolding listen_to
  listen_to-ok text w h = elim (Option-cases (parse_multiaddr text)) [
    | inl e ↦ absurd (ground (arith, h, e))
    | inr (address, e) ↦ elim (Option-cases (builder.listen_on w.swarm address)) [
      | inl refused ↦ absurd (ground (arith, h, e, refused))
      | inr (s, p) ↦ (address, s, e, p, rw (e, p) refl)
    ]
  ]

  -- The address that the command line gives.
  abbrev pub argument : List String → List Multiaddr
  argument args = elim (get_elem? args 1) [
    | none ↦ []
    | some text ↦ elim (parse_multiaddr text) [ none ↦ [] | some address ↦ address ∷ [] ]
  ]

  dial_argument-ok :
      (args : List String) (w : World c E x)
      → (dial_argument c E x l builder args w).0 ≡ ok tt
      → (s : x.p2p.Swarm) × (status s
          ≡ record (status w.swarm) { dialled = (status w.swarm).dialled ++ argument args })
        × ((dial_argument c E x l builder args w).1 ≡ record w { swarm = s })
  unfolding dial_argument
  dial_argument-ok [] w h =
      (w.swarm, ap (λ d. record (status w.swarm) { dialled = d }) (sym (append-nil _)), refl)
  dial_argument-ok (name ∷ []) w h =
      (w.swarm, ap (λ d. record (status w.swarm) { dialled = d }) (sym (append-nil _)), refl)
  dial_argument-ok (name ∷ text ∷ args) w h = elim (Option-cases (parse_multiaddr text)) [
    | inl e ↦ absurd (ground (arith, h, e))
    | inr (address, e) ↦ elim (Option-cases (builder.dial w.swarm address)) [
      | inl refused ↦ absurd (ground (arith, h, e, refused))
      | inr (s, p) ↦ (s, rw e (builder.status-dial w.swarm s address p), ground (arith, e, p))
    ]
  ]

  subscribe_all-ok :
      (topics : List String) (w : World c E x)
      → (subscribe_all c E x topics w).0 ≡ ok tt
      → (s : x.p2p.Swarm) × (status s
          ≡ record (status w.swarm) { subscribed = (status w.swarm).subscribed ++ topics })
        × ((subscribe_all c E x topics w).1
            ≡ record w { layer = record w.layer { topics = w.layer.topics ++ topics }; swarm = s })
  unfolding subscribe_all
  subscribe_all-ok [] w h = (
    w.swarm,
    ap (λ d. record (status w.swarm) { subscribed = d }) (sym (append-nil _)),
    ap (λ t. (record w { layer = record w.layer { topics = t } })) (sym (append-nil _)),
  )
  subscribe_all-ok (topic ∷ topics) w h = elim (Option-cases (x.p2p.subscribe w.swarm topic)) [
    | inl e ↦ absurd (ground (arith, h, e))
    | inr (s, e) ↦
        let next : World c E x = record w {
          layer = record w.layer { topics = w.layer.topics ++ topic ∷ [] };
          swarm = s;
        } in
        let (s', told, state) = subscribe_all-ok topics next (ground (arith, h, e)) in
        (
          s',
          told
              ∙ ap (λ (t : Status Multiaddr). record t { subscribed = t.subscribed ++ topics })
                  (builder.status-subscribe w.swarm s topic e)
              ∙ ap (λ d. record (status w.swarm) { subscribed = d })
                  (append_assoc (status w.swarm).subscribed (topic ∷ []) topics),
          rw e state
              ∙ ap (λ t. (record w { layer = record w.layer { topics = t }; swarm = s' }))
                  (append_assoc w.layer.topics (topic ∷ []) topics),
        )
  ]

  -- What `start` has done when its loop begins.
  pub record IsReady (key : l.Keypair) (args : List String) (layer : NetworkLayer c E)
      (w : World c E x) : Type 0 where
    pub tcp : Multiaddr
    pub udp : Multiaddr
    pub tcp_parsed : parse_multiaddr "/ip4/0.0.0.0/tcp/0" ≡ some tcp
    pub udp_parsed : parse_multiaddr "/ip4/0.0.0.0/udp/0/quic-v1" ≡ some udp
    pub asked : status w.swarm ≡ record {
      local_peer_id = l.peer_id key;
      listening = tcp ∷ udp ∷ [];
      dialled = argument args;
      subscribed = default_topics;
    }
    pub kept : w.layer ≡ record layer { topics = layer.topics ++ default_topics }

  -- The status of a swarm after one more call.
  abbrev listening_too : Multiaddr → Status Multiaddr → Status Multiaddr
  listening_too a t = record t { listening = t.listening ++ a ∷ [] }

  abbrev dialled_too : List Multiaddr → Status Multiaddr → Status Multiaddr
  dialled_too a t = record t { dialled = t.dialled ++ a }

  abbrev subscribed_too : List String → Status Multiaddr → Status Multiaddr
  subscribed_too a t = record t { subscribed = t.subscribed ++ a }

  pub prepare-ok :
      (key : l.Keypair) (args : List String) (w : World c E x)
      → status w.swarm
        ≡ record { local_peer_id = l.peer_id key; listening = []; dialled = []; subscribed = [] }
      → (prepare c E x l builder args w).0 ≡ ok tt
      → IsReady key args w.layer (prepare c E x l builder args w).1
        × ((prepare c E x l builder args w).1.env ≡ w.env)
  unfolding prepare subscribe_to_default_topics
  prepare-ok key args w fresh h =
      let subscribing : Io (World c E x) (Unit {0}) = subscribe_all c E x default_topics in
      let dialling : Io (World c E x) (Unit {0}) =
        dial_argument c E x l builder args >> subscribing in
      let listening : Io (World c E x) (Unit {0}) =
        listen_to c E x l builder "/ip4/0.0.0.0/udp/0/quic-v1" >> dialling in
      let (u1, r1, k1) =
        and_then-ok (listen_to c E x l builder "/ip4/0.0.0.0/tcp/0" w) (λ _. listening) h in
      let (tcp, s1, p1, l1, e1) = listen_to-ok "/ip4/0.0.0.0/tcp/0" w r1 in
      let w1 : World c E x = record w { swarm = s1 } in
      let h1 : (listening w1).0 ≡ ok tt =
        ap (λ v. (listening v).0) (sym e1) ∙ ap (λ r. r.0) (sym k1) ∙ h in
      let (u2, r2, k2) =
        and_then-ok (listen_to c E x l builder "/ip4/0.0.0.0/udp/0/quic-v1" w1) (λ _. dialling)
          h1 in
      let (udp, s2, p2, l2, e2) = listen_to-ok "/ip4/0.0.0.0/udp/0/quic-v1" w1 r2 in
      let w2 : World c E x = record w { swarm = s2 } in
      let h2 : (dialling w2).0 ≡ ok tt =
        ap (λ v. (dialling v).0) (sym e2) ∙ ap (λ r. r.0) (sym k2) ∙ h1 in
      let (u3, r3, k3) =
        and_then-ok (dial_argument c E x l builder args w2) (λ _. subscribing) h2 in
      let (s3, told3, e3) = dial_argument-ok args w2 r3 in
      let w3 : World c E x = record w { swarm = s3 } in
      let h3 : (subscribing w3).0 ≡ ok tt =
        ap (λ v. (subscribing v).0) (sym e3) ∙ ap (λ r. r.0) (sym k3) ∙ h2 in
      let (s4, told4, e4) = subscribe_all-ok default_topics w3 h3 in
      let state =
        ap (λ r. r.1) (k1 ∙ ap listening e1 ∙ (k2 ∙ ap dialling e2 ∙ (k3 ∙ ap subscribing e3)))
        ∙ e4 in
      let asked1 = builder.status-listen_on w.swarm s1 tcp l1 ∙ ap (listening_too tcp) fresh in
      let asked2 = builder.status-listen_on s1 s2 udp l2 ∙ ap (listening_too udp) asked1 in
      let asked3 = told3 ∙ ap (dialled_too (argument args)) asked2 in
      subst (λ (v : World c E x). IsReady key args w.layer v × (v.env ≡ w.env)) (sym state)
        (
          record {
            tcp = tcp;
            udp = udp;
            tcp_parsed = p1;
            udp_parsed = p2;
            asked = told4 ∙ ap (subscribed_too default_topics) asked3;
            kept = refl;
          },
          refl,
        )
