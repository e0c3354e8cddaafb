-- ===== src/Tests/SetupTests.antt =====
-- The theorems on the start of src/network_layer.rs, src/network_layer_bkp.rs, src/network/mod.rs,
-- src/main.rs and src/bin/ptp.rs, and on messages of the same bytes, applied at concrete inputs.
use mpc_node.Common.{
  ◌≡◌, ◌≢◌, refl, String, List, [], ◌∷◌, ◌++◌, some, none, ok, err, arith, true, false, Option,
  get_elem?, eq_iff,
}
use mpc_node.Crypto.Small.{small, residue, Residue}
use mpc_node.Wire.{Json}
use mpc_node.Adkg
use mpc_node.Adkg.{
  AdkgMessage, share_proposal, share_ack, evaluate_polynomial, generate_commitments,
}
use mpc_node.Adkg.Feldman.{verify_commitments_iff}
use mpc_node.GossipLayer.{World, discovered, gossip_message, run_loop, run}
use mpc_node.GossipLayer.Setup.{
  Program, launch, launch_earlier, build_swarm, build_swarm_earlier, run_on,
}
use mpc_node.Swarm.{build_gossipsub, build_config}
use mpc_node.GossipLayer.Identity.{launch-named}
use mpc_node.GossipLayer.Restart.{launch-again}
use mpc_node.GossipLayer.Duplicates.{run_loop-two_proposals}
use mpc_node.Client
use mpc_node.Client.{looping}
use mpc_node.Client.Requests.{IsSilent, asked, answered, joined, main-sends}
use mpc_node.Tests.GossipTests.{recorder, kept, two_events}
use mpc_node.Tests.Fixtures.{draws, no_json, list_json, AdkgMessage-discrete}
use mpc_node.Tests.SetupFixtures.{libraries, tracing, radio, radio_builder, sent_ids}

abbrev no_program : Program small radio tracing
no_program = record { process = false; world = none }

me_is_not_other : ◌≢◌ {A = String} "me" "other"
me_is_not_other e = ground (arith, e, eq_iff "me" "other")

-- What `run` has come to, in both versions.
abbrev as_me : World small radio
as_me =
    (run small radio no_json "me" 3 1 1 draws (record { id = "me"; peers = []; sent = [] }) []).1

abbrev as_other : World small radio
as_other =
    (run small radio no_json "me" 3 1 1 draws (record { id = "other"; peers = []; sent = [] }) []).1

came_to_me :
    (launch small radio no_json libraries tracing radio_builder 3 1 1 "me" draws []
      no_program).1.world
    ≡ some as_me
unfolding launch build_swarm run_on build_gossipsub build_config
came_to_me = refl

came_to_other :
    (launch_earlier small radio no_json libraries tracing radio_builder 3 1 1 "me" "other" draws []
      no_program).1.world
    ≡ some as_other
unfolding launch_earlier build_swarm_earlier run_on build_gossipsub build_config
came_to_other = refl

named_me : (as_me.node.id ≡ as_me.swarm.id) × (as_other.node.id ≢ as_other.swarm.id)
named_me =
    launch-named small radio no_json libraries tracing radio_builder 3 1 1 "me" "other" draws []
      no_program as_me as_other refl me_is_not_other came_to_me came_to_other

launched_twice :
    let once =
      (launch small radio no_json libraries tracing radio_builder 3 1 1 "me" draws []
        no_program).1 in
    (launch small radio no_json libraries tracing radio_builder 5 2 1 "me" draws [] once
      ≡ (err "a global default trace dispatcher has already been set", once))
    × ((launch_earlier small radio no_json libraries tracing radio_builder 5 2 1 "me" "other" draws
          [] once).0
        ≡ (launch_earlier small radio no_json libraries tracing radio_builder 5 2 1 "me" "other"
            draws [] no_program).0)
launched_twice =
    launch-again small radio no_json libraries tracing radio_builder 3 5 1 2 1 1 "me" "me" "other"
      draws draws [] [] no_program

-- Two proposals under the name "a", the second from a polynomial of degree zero.
abbrev line_of_a : List Residue
line_of_a = residue 1 ∷ residue 2 ∷ []

abbrev constant_of_a : List Residue
constant_of_a = residue 4 ∷ []

abbrev shares_of : List Residue → List Residue
shares_of coeffs = evaluate_polynomial small coeffs 1 ∷ []

abbrev proposal_of_a : List Residue → AdkgMessage small
proposal_of_a coeffs = share_proposal "a" (shares_of coeffs) (generate_commitments small coeffs)

abbrev two_json : Json (AdkgMessage small)
two_json =
    list_json AdkgMessage-discrete
      (proposal_of_a line_of_a ∷ proposal_of_a constant_of_a ∷ share_ack "me" "a" true ∷ [])

abbrev listening_world : World small radio
listening_world = record {
  node = Adkg.new small "me" 2 1 1;
  swarm = record { id = "me"; peers = "p" ∷ []; sent = [] };
  peer_list = "p" ∷ [];
}

ended_by_second :
    (run_loop small radio two_json
      (gossip_message "p" (0 ∷ [])
        ∷ (discovered (("q", "/ip4") ∷ []) ∷ [] ++ gossip_message "q" (1 ∷ []) ∷ []))
      listening_world).0
    ≢ ok tt
ended_by_second =
    run_loop-two_proposals small radio two_json libraries sent_ids listening_world "p" "q" (0 ∷ [])
      (1 ∷ []) "a" (shares_of line_of_a) (shares_of constant_of_a)
      (generate_commitments small line_of_a) (generate_commitments small constant_of_a)
      (discovered (("q", "/ip4") ∷ []) ∷ []) [] refl refl
      ((verify_commitments_iff small listening_world.node "a" line_of_a (shares_of line_of_a)
          (evaluate_polynomial small line_of_a 1) (omega arith) (omega arith) refl).1
        refl)
      ((verify_commitments_iff small listening_world.node "a" constant_of_a
          (shares_of constant_of_a) (evaluate_polynomial small constant_of_a 1) (omega arith)
          (omega arith) refl).1
        refl)

-- The test client, on a command line with one address, in the loop with a swarm that has dialled it.
abbrev client_builder : Client.SwarmBuilder small libraries recorder
client_builder = record {
  Multiaddr = String;
  parse_multiaddr = λ text. some text;
  build = λ wired behaviour. ([], []);
  dial = λ s address. some s;
}

same_requests : (s s' : recorder.Swarm) → some s ≡ some s' → s'.0 ≡ s.0
same_requests s s' e = cc

same_responses : (s s' : recorder.Swarm) → some s ≡ some s' → s'.1 ≡ s.1
same_responses s s' e = cc

abbrev silent_client : IsSilent small recorder kept libraries client_builder
silent_client = record {
  requests-build = λ wired behaviour. refl;
  responses-build = λ wired behaviour. refl;
  requests-dial = λ s s' address. same_requests s s';
  responses-dial = λ s s' address. same_responses s s';
}

abbrev client_arguments : List String
client_arguments = "ptp" ∷ "/ip4/10.0.0.1/tcp/4001" ∷ []

abbrev asking : recorder.Swarm
asking = Client.run small recorder two_events ([], [])

came_to_loop :
    (Client.main small recorder libraries client_builder "key" client_arguments two_events tt).0
    ≡ ok (looping asking)
unfolding Client.main
came_to_loop = refl

asked_twice :
    ((text : String) × (address : String) × (get_elem? client_arguments 1 ≡ some text)
      × (◌≡◌ {A = Option String} (some text) (some address)))
    × (asking.0 ≡ joined asked two_events)
    × (asking.1 ≡ joined answered two_events)
asked_twice =
    main-sends small recorder kept libraries client_builder silent_client "key" client_arguments
      two_events asking came_to_loop
