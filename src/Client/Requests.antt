-- ===== src/Client/Requests.antt =====
-- What the test client of src/bin/ptp.rs has asked for and answered after any events.
use mpc_node.Common.{
  ℕ, ◌≡◌, refl, sym, ap, ◌∙◌, List, [], ◌∷◌, ◌++◌, String, some, Option-cases, inl, inr, ok, arith,
  get_elem?,
}
use mathlib.Core.List.{append_assoc, append-nil}
use mpc_node.Crypto.{Curve}
use mpc_node.Rpc.{PeerId, RpcRequest, RpcResponse}
use mpc_node.Network.{Libp2p}
use mpc_node.Swarm.{Libraries, build_mpc_behaviour}
use mpc_node.Client.{
  SwarmBuilder, MyBehaviour, looping, main, ClientEvent, connection_established, response, request,
  outbound_failure, inbound_failure, response_sent, new_listen_addr, other, handle_event, run,
}

module _ (c : Curve) (p2p : Libp2p c) where
  -- A swarm that can be asked what it was told to send, in order.
  pub record Sends : Type 0 where
    pub requests : p2p.Swarm → List (PeerId × RpcRequest c)
    pub responses : p2p.Swarm → List (ℕ × RpcResponse c)
    pub requests-request :
        (s : p2p.Swarm) (p : PeerId) (r : RpcRequest c)
        → requests (p2p.send_request s p r) ≡ requests s ++ (p, r) ∷ []
    pub responses-request :
        (s : p2p.Swarm) (p : PeerId) (r : RpcRequest c)
        → responses (p2p.send_request s p r) ≡ responses s
    pub requests-response :
        (s : p2p.Swarm) (channel : ℕ) (r : RpcResponse c)
        → requests (p2p.send_response s channel r) ≡ requests s
    pub responses-response :
        (s : p2p.Swarm) (channel : ℕ) (r : RpcResponse c)
        → responses (p2p.send_response s channel r) ≡ responses s ++ (channel, r) ∷ []

-- The lists of all events, one after another.
abbrev pub joined : {A B : Type 0} → (A → List B) → List A → List B
joined f [] = []
joined f (a ∷ rest) = f a ++ joined f rest

module _ {c : Curve} where
  -- The requests and the responses that one event asks for.
  unfoldable pub asked : ClientEvent c → List (PeerId × RpcRequest c)
  asked (connection_established peer_id) = (peer_id, RpcRequest.start_adkg) ∷ []
  asked (response peer_id r) = []
  asked (request peer_id r channel) = []
  asked (outbound_failure peer_id) = []
  asked (inbound_failure peer_id) = []
  asked (response_sent peer_id) = []
  asked (new_listen_addr address) = []
  asked other = []

  unfoldable pub answered : ClientEvent c → List (ℕ × RpcResponse c)
  answered (connection_established peer_id) = []
  answered (response peer_id r) = []
  answered (request peer_id r channel) = (channel, RpcResponse.pong) ∷ []
  answered (outbound_failure peer_id) = []
  answered (inbound_failure peer_id) = []
  answered (response_sent peer_id) = []
  answered (new_listen_addr address) = []
  answered other = []

-- The behaviour that the client runs.
abbrev client : (l : Libraries) → MyBehaviour l
client l = record { request_response = build_mpc_behaviour l }

module _ (c : Curve) (p2p : Libp2p c) (sends : Sends c p2p) where
  requests-handle_event :
      (event : ClientEvent c) (s : p2p.Swarm)
      → sends.requests (handle_event c p2p event s) ≡ sends.requests s ++ asked event
  unfolding handle_event asked
  requests-handle_event (connection_established p) s =
      sends.requests-request s p RpcRequest.start_adkg
  requests-handle_event (request p r channel) s =
      sends.requests-response s channel RpcResponse.pong ∙ sym (append-nil _)
  requests-handle_event (response p r) s = sym (append-nil _)
  requests-handle_event (outbound_failure p) s = sym (append-nil _)
  requests-handle_event (inbound_failure p) s = sym (append-nil _)
  requests-handle_event (response_sent p) s = sym (append-nil _)
  requests-handle_event (new_listen_addr address) s = sym (append-nil _)
  requests-handle_event other s = sym (append-nil _)

  responses-handle_event :
      (event : ClientEvent c) (s : p2p.Swarm)
      → sends.responses (handle_event c p2p event s) ≡ sends.responses s ++ answered event
  unfolding handle_event answered
  responses-handle_event (connection_established p) s =
      sends.responses-request s p RpcRequest.start_adkg ∙ sym (append-nil _)
  responses-handle_event (request p r channel) s =
      sends.responses-response s channel RpcResponse.pong
  responses-handle_event (response p r) s = sym (append-nil _)
  responses-handle_event (outbound_failure p) s = sym (append-nil _)
  responses-handle_event (inbound_failure p) s = sym (append-nil _)
  responses-handle_event (response_sent p) s = sym (append-nil _)
  responses-handle_event (new_listen_addr address) s = sym (append-nil _)
  responses-handle_event other s = sym (append-nil _)

  -- After any events, in any order, the client has sent one StartADKG to the peer of every connection
  -- that was established and one Pong on the channel of every request that came in, in the order
  -- of the events, and nothing else.
  pub run-sends :
      (events : List (ClientEvent c)) (s : p2p.Swarm)
      → (sends.requests (run c p2p events s) ≡ sends.requests s ++ joined asked events)
        × (sends.responses (run c p2p events s) ≡ sends.responses s ++ joined answered events)
  unfolding run
  run-sends [] s = (sym (append-nil (sends.requests s)), sym (append-nil (sends.responses s)))
  run-sends (event ∷ events) s =
      let (asks, answers) = run-sends events (handle_event c p2p event s) in
      (
        asks
            ∙ ap (λ l. l ++ joined asked events) (requests-handle_event event s)
            ∙ append_assoc (sends.requests s) (asked event) _,
        answers
            ∙ ap (λ l. l ++ joined answered events) (responses-handle_event event s)
            ∙ append_assoc (sends.responses s) (answered event) _,
      )

  module _ (l : Libraries) (builder : SwarmBuilder c l p2p) where
    -- A swarm that is new, or has dialled only, has sent nothing.
    pub record IsSilent : Type 0 where
      pub requests-build :
          (wired : l.Wired) (behaviour : MyBehaviour l)
          → sends.requests (builder.build wired behaviour) ≡ []
      pub responses-build :
          (wired : l.Wired) (behaviour : MyBehaviour l)
          → sends.responses (builder.build wired behaviour) ≡ []
      pub requests-dial :
          (s s' : p2p.Swarm) (address : builder.Multiaddr)
          → builder.dial s address ≡ some s'
          → sends.requests s' ≡ sends.requests s
      pub responses-dial :
          (s s' : p2p.Swarm) (address : builder.Multiaddr)
          → builder.dial s address ≡ some s'
          → sends.responses s' ≡ sends.responses s

    abbrev built : l.Wired → p2p.Swarm
    built wired = builder.build (l.with_quic wired) (client l)

    main-dialled :
        (key : l.Keypair) (args : List String) (events : List (ClientEvent c)) (s : p2p.Swarm)
        → (main c p2p l builder key args events tt).0 ≡ ok (looping s)
        → (text : String) × (address : builder.Multiaddr) × (wired : l.Wired)
          × (dialling : p2p.Swarm) × (get_elem? args 1 ≡ some text)
          × (builder.parse_multiaddr text ≡ some address)
          × (builder.dial (built wired) address ≡ some dialling)
          × (s ≡ run c p2p events dialling)
    unfolding main
    main-dialled key [] events s h = absurd (ground arith)
    main-dialled key (program ∷ []) events s h = absurd (ground arith)
    main-dialled key (program ∷ text ∷ args) events s h =
        elim (Option-cases (builder.parse_multiaddr text)) [
          | inl e ↦ absurd (ground (arith, h, e))
          | inr (address, e) ↦ elim (Option-cases (l.with_tcp key)) [
            | inl e' ↦ absurd (ground (arith, h, e, e'))
            | inr (wired, e') ↦ elim (Option-cases (builder.dial (built wired) address)) [
              | inl e'' ↦ absurd (ground (arith, h, e, e', e''))
              | inr (dialling, e'') ↦
                  (text, address, wired, dialling, refl, e, e'', ground (arith, h, e, e', e''))
            ]
          ]
        ]

    -- The test client, on any command line and any events, if it comes to its loop: its second argument
    -- is an address, and it has sent one StartADKG to the peer of every connection that was
    -- established and one Pong on the channel of every request that came in, in the order of the
    -- events, and nothing else.
    pub main-sends :
        (silent : IsSilent) (key : l.Keypair) (args : List String) (events : List (ClientEvent c))
        (s : p2p.Swarm)
        → (main c p2p l builder key args events tt).0 ≡ ok (looping s)
        → ((text : String) × (address : builder.Multiaddr) × (get_elem? args 1 ≡ some text)
            × (builder.parse_multiaddr text ≡ some address))
          × (sends.requests s ≡ joined asked events)
          × (sends.responses s ≡ joined answered events)
    main-sends silent key args events s h =
        let (text, address, wired, dialling, second, parsed, dialled, e) =
          main-dialled key args events s h in
        let (asks, answers) = run-sends events dialling in
        (
          (text, address, second, parsed),
          ap sends.requests e
              ∙ asks
              ∙ ap (λ q. q ++ joined asked events)
                  (silent.requests-dial (built wired) dialling address dialled
                    ∙ silent.requests-build (l.with_quic wired) (client l)),
          ap sends.responses e
              ∙ answers
              ∙ ap (λ q. q ++ joined answered events)
                  (silent.responses-dial (built wired) dialling address dialled
                    ∙ silent.responses-build (l.with_quic wired) (client l)),
        )
