-- ===== src/Tests/StartupTests.antt =====
-- The theorems on src/main.rs and on the start of src/network/mod.rs, applied to a peer id, a command
-- line and one distribution.
use mpc_node.Common.{◌≡◌, ◌≢◌, ◌⊎◌, some, String, false, refl, List, [], ◌∷◌, none, ok, arith}
use mpc_node.Crypto.Small.{small, residue}
use mpc_node.Types.{GossipsubMessage, KeyShare, dkg, share_distribution}
use mpc_node.Wire.{Bytes}
use mpc_node.Network.{World}
use mpc_node.Network.EventLoop.{run}
use mpc_node.Startup.{main_layer, main, Program, IsDistribution}
use mpc_node.Startup.Main.{gossiped, main-ignores}
use mpc_node.Network.Setup.{Started, start}
use mpc_node.Network.Ready.{IsReady}
use mpc_node.Network.Startup.{IsUntouched, left_by, start-cases}
use mpc_node.Tests.SetupFixtures.{libraries, tracing, asked_crates, asked_builder}
use mpc_node.Network.{NetworkLayer}
use mpc_node.Tests.Fixtures.{gossip_json, draws}
use mpc_node.Common.Parse.{parse_usize, usize_max}

abbrev share_for_one : KeyShare small
share_for_one = record { index = 1; value = residue 3 }

abbrev distribution : GossipsubMessage small
distribution = dkg (share_distribution "2" (share_for_one ∷ []) (residue 5 ∷ []))

no_index : parse_usize "12D3KooWQYV9dGMF" ≡ none
unfolding parse_usize
no_index = refl

ordinary : 1 ≢ usize_max
ordinary h = omega (arith, h)

read_as_distribution : IsDistribution small (Unit {0}) (asked_crates (gossip_json distribution)) []
read_as_distribution = ("2", share_for_one ∷ [], residue 5 ∷ [], refl, (ordinary, tt))

abbrev one_message : List Bytes
one_message = [] ∷ []

abbrev command_line : List String
command_line = "mpc-node" ∷ "/ip4/10.0.0.1/tcp/4001" ∷ []

abbrev new_layer : NetworkLayer small (Unit {0})
new_layer =
    main_layer small (Unit {0}) (asked_crates (gossip_json distribution)) "12D3KooWQYV9dGMF"
      (1 ∷ []) (2 ∷ [])

abbrev new_program : Program small (Unit {0}) (asked_crates (gossip_json distribution)) tracing
new_program = record { process = false; started = none }

abbrev not_started : Started small (Unit {0}) (asked_crates (gossip_json distribution))
not_started = record { layer = new_layer; env = tt; swarm = none }

abbrev after_start : Started small (Unit {0}) (asked_crates (gossip_json distribution))
after_start =
    (start small (Unit {0}) (asked_crates (gossip_json distribution)) libraries asked_builder
      "12D3KooWQYV9dGMF" command_line (λ n. draws)
      (gossiped small (Unit {0}) (asked_crates (gossip_json distribution)) libraries asked_builder
        one_message)
      not_started).1

has_started :
    (main small
      (Unit {0})
      (asked_crates (gossip_json distribution))
      libraries
      asked_builder
      tracing
      "mpcn-1375.log"
      "12D3KooWQYV9dGMF"
      (1 ∷ [])
      (2 ∷ [])
      command_line
      tt
      (λ n. draws)
      (gossiped small
        (Unit {0})
        (asked_crates (gossip_json distribution))
        libraries
        asked_builder
        one_message)
      new_program).1.started
    ≡ some after_start
unfolding main
has_started = refl

nothing_stored : after_start.layer ≡ record new_layer { topics = after_start.layer.topics }
nothing_stored =
    main-ignores small (Unit {0}) (asked_crates (gossip_json distribution)) libraries asked_builder
      "12D3KooWQYV9dGMF" (1 ∷ []) (2 ∷ []) command_line tt (λ n. draws) one_message no_index
      (read_as_distribution, tt) tracing "mpcn-1375.log" new_program refl after_start has_started

started_or_not :
    let end =
      start small
        (Unit {0})
        (asked_crates (gossip_json distribution))
        libraries
        asked_builder
        "12D3KooWQYV9dGMF"
        command_line
        (λ n. draws)
        []
        not_started in
    ((end.0 ≢ ok tt)
      × IsUntouched small
          (Unit {0})
          (asked_crates (gossip_json distribution))
          libraries
          asked_builder
          new_layer
          tt
          end.1.layer
          end.1.env)
    ⊎ ((w : World small (Unit {0}) (asked_crates (gossip_json distribution))) × IsReady small
          (Unit {0})
          (asked_crates (gossip_json distribution))
          libraries
          asked_builder
          "12D3KooWQYV9dGMF"
          command_line
          new_layer
          w
        × (w.env ≡ tt)
        × (end
            ≡ left_by small
                (Unit {0})
                (asked_crates (gossip_json distribution))
                libraries
                asked_builder
                (run small (Unit {0}) (asked_crates (gossip_json distribution)) (λ n. draws) [] w)))
started_or_not =
    start-cases small (Unit {0}) (asked_crates (gossip_json distribution)) libraries asked_builder
      "12D3KooWQYV9dGMF" command_line (λ n. draws) [] not_started
