-- ===== src/Tests/AdkgTests.antt =====
-- The theorems on src/adkg_layer.bkp.rs, applied over the integers modulo 7.
use mpc_node.Common.{
  All, ℕ, ◌≡◌, ◌≢◌, ◌↔◌, refl, ap, ap₂, true, List, [], ◌∷◌, arith, some, ok, panicked, map, ◌≤◌,
}
use mathlib.Core.List.{flatten}
use mpc_node.Common.HashMap.{lookup}
use mpc_node.Crypto.Small.{small, residue, Residue, Residue-path}
use mpc_node.Adkg
use mpc_node.Adkg.{
  start_adkg, AdkgNode, AdkgMessage, World, share_ack, share_proposal, reconstruct_secret,
  evaluate_polynomial, verify_commitments, generate_commitments, handle_message, check_completion,
  count_valid, push_ack,
}
use mpc_node.Adkg.Weights.{Apart}
use mpc_node.Adkg.Feldman.{verify_commitments_iff}
use mpc_node.Adkg.Completion.{check_completion_panics}
use mpc_node.Adkg.Protocol.{Arrival, IsTaken, Dealer, deliver, handle_message_completes}
use mpc_node.Adkg.Agreement.{contributions, acknowledged, reconstruct_secret-acknowledged}
use mpc_node.Adkg.Completion.{stored}
use mpc_node.Adkg.Delivery.{with_dealt, deliver-with_dealt}
use mpc_node.Tests.Fixtures.{
  adkg_json, single_json_writes, open_gossip, AdkgMessage-discrete, no_json,
}

-- 1 + 2x
abbrev line : List Residue
line = residue 1 ∷ residue 2 ∷ []

-- 4 + x
abbrev other_line : List Residue
other_line = residue 4 ∷ residue 1 ∷ []

one_ne_two : residue 2 ≢ residue 1
one_ne_two h = omega (arith, ap (λ (r : Residue). r.0) h)

indices_differ : Apart small (1 ∷ 2 ∷ [])
indices_differ = ((one_ne_two, tt), (tt, tt))

abbrev node_b : AdkgNode small
node_b = Adkg.new small "b" 3 1 2

-- The node with index 2 accepts 5, the value of the line at 2, and nothing else.
accepts_the_line :
    (verify_commitments small node_b "a"
        (residue 3 ∷ residue 5 ∷ [])
        (generate_commitments small line)
      ≡ ok true)
    ↔ (residue 5 ≡ evaluate_polynomial small line 2)
accepts_the_line =
    verify_commitments_iff small node_b "a" line (residue 3 ∷ residue 5 ∷ []) (residue 5)
      (omega arith) (omega arith) refl

abbrev dealer_a : Dealer small
dealer_a = ("a", residue 1, residue 2 ∷ [])

abbrev ack_a : AdkgMessage small
ack_a = share_ack "b" "a" true

abbrev world_b : World small open_gossip
world_b = record { node = node_b; swarm = [] }

ack-IsTaken : IsTaken small open_gossip (adkg_json ack_a) [] ack_a
ack-IsTaken = record {
  bytes = [];
  later = [] ∷ [];
  written = single_json_writes AdkgMessage-discrete ack_a;
  sent = refl;
}

abbrev arrival_a : Arrival small open_gossip (adkg_json ack_a)
arrival_a = record { swarm = []; dealer = dealer_a }

delivered_one :
    ((deliver small open_gossip (adkg_json ack_a) 3 (arrival_a ∷ []) world_b).0 ≡ ok tt)
    × ((deliver small open_gossip (adkg_json ack_a) 3 (arrival_a ∷ []) world_b).1.node
        ≡ with_dealt small node_b (dealer_a ∷ []))
unfolding lookup
delivered_one =
    deliver-with_dealt small open_gossip (adkg_json ack_a) (arrival_a ∷ []) world_b 3 (omega arith)
      (omega arith) (tt, tt) ((refl, refl), tt) (ack-IsTaken, tt)

-- The node once it holds the dealer's share, before any acknowledgement.
abbrev world_dealt : World small open_gossip
world_dealt = record { node = with_dealt small node_b (dealer_a ∷ []); swarm = [] }

completed_one :
    (handle_message small open_gossip no_json
      (share_ack "c" "b" true)
      world_dealt).1.node.public_key
    ≡ some (residue 1)
completed_one =
    ap (λ r. r.1.node.public_key)
      (handle_message_completes small open_gossip no_json world_dealt "c" (dealer_a ∷ []) refl refl
        (omega arith))

abbrev world_empty : World small open_gossip
world_empty = record {
  node = record node_b {
    commitments = ("a", generate_commitments small line) ∷ ("m", []) ∷ [];
    acks = ("c", ("c", true) ∷ []) ∷ [];
  };
  swarm = [];
}

reached : 1 ≤ count_valid small world_empty.node.acks
unfolding count_valid flatten
reached = omega arith

same_commitments :
    generate_commitments small line ∷ [] ∷ [] ≡ (residue 1 ∷ residue 2 ∷ []) ∷ [] ∷ []
unfolding generate_commitments
same_commitments =
    ap₂ (λ x y. (x ∷ y ∷ []) ∷ [] ∷ []) (Residue-path _ _ refl) (Residue-path _ _ refl)

panics_on_empty : (check_completion small open_gossip no_json world_empty).0 ≡ panicked
panics_on_empty =
    check_completion_panics small open_gossip no_json world_empty ((residue 1, residue 2 ∷ []) ∷ [])
      [] reached same_commitments

-- Two nodes, with indices 1 and 2, that hold what the dealer gave to them.
abbrev node_at : ℕ → AdkgNode small
node_at idx = with_dealt small (Adkg.new small "n" 2 1 idx) (dealer_a ∷ [])

abbrev two_worlds : List (World small open_gossip)
two_worlds = record { node = node_at 1; swarm = [] } ∷ record { node = node_at 2; swarm = [] } ∷ []

agreed_two :
    (reconstruct_secret small
        (contributions small (map (acknowledged small open_gossip no_json "c") two_worlds))
      ≡ some (residue 1))
    × All
        (λ w. (acknowledged small open_gossip no_json "c" w).public_key ≡ some (residue 1))
        two_worlds
agreed_two =
    reconstruct_secret-acknowledged small open_gossip no_json (dealer_a ∷ []) "c" two_worlds
      ((refl, refl, omega arith), ((refl, refl, omega arith), tt)) indices_differ (omega arith, tt)

-- The node after one proposal that it accepts.
abbrev world_heard : World small open_gossip
world_heard = record {
  node =
      stored small open_gossip (adkg_json ack_a) node_b "a" (evaluate_polynomial small line 2)
        (generate_commitments small line);
  swarm = [] ∷ [];
}
