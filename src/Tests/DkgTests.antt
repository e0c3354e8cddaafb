-- ===== src/Tests/DkgTests.antt =====
-- The theorems on src/dkg/mod.rs, applied over the integers modulo 7.
use mpc_node.Common.{
  ◌≡◌, ◌≢◌, refl, ap, true, [], ◌∷◌, ◌==◌, arith, none, some, ok, blocked, map, find,
}
use mpc_node.Common.RwLock.{unlocked}
use mpc_node.Channel.{Channel, channel}
use mpc_node.Crypto.Small.{small, residue, Residue}
use mpc_node.Types.{
  KeyShare, share_distribution, share_validation, GossipsubMessage, dkg, broadcast,
}
use mpc_node.Adkg.{reconstruct_secret}
use mpc_node.Crypto.Field.{sum}
use mpc_node.Dkg
use mpc_node.Dkg.{
  DkgNode, World, generate_shares, generate_polynomial, generate_commitments, start_dkg,
  msg_topic_dkg, handle_message, own_index, push_validation, generate_group_key,
}
use mpc_node.Dkg.Shares.{Fits, pair, generate_shares-fit}
use mpc_node.Dkg.Store.{Distribution, HoldsLatest, handle_all, handle_all-HoldsLatest}
use mpc_node.Wire.{Json}
use mpc_node.Common.{All, length, List, none, ◌≢◌}
use mpc_node.Dkg.Handlers.{handle_message_deadlock, generate_group_key-sum}
use mpc_node.Tests.Fixtures.{
  gossip_json, single_json_writes, GossipsubMessage-discrete, no_json, draws,
}
use mpc_node.Common.Parse.{parse_usize}

-- The first of three nodes, with threshold 1.
abbrev node_one : DkgNode small
node_one = Dkg.new small "1" 1 3

abbrev world_one : World small
world_one = record { node = node_one; channel = channel }

two_ne_one : residue 2 ≢ residue 1
two_ne_one h = omega (arith, ap (λ (r : Residue). r.0) h)

three_ne_one : residue 3 ≢ residue 1
three_ne_one h = omega (arith, ap (λ (r : Residue). r.0) h)

three_ne_two : residue 3 ≢ residue 2
three_ne_two h = omega (arith, ap (λ (r : Residue). r.0) h)

shares_of_one :
    (length (generate_shares small node_one (generate_polynomial small node_one draws)) ≡ 3)
    × All
        (Fits small (generate_commitments small (generate_polynomial small node_one draws)))
        (generate_shares small node_one (generate_polynomial small node_one draws))
    × (reconstruct_secret small (
          map
            (pair small)
            (generate_shares small node_one (generate_polynomial small node_one draws)))
        ≡ some (residue 0))
shares_of_one =
    generate_shares-fit small node_one draws
      ((two_ne_one, (three_ne_one, tt)), ((three_ne_two, tt), (tt, tt))) (omega arith)

-- What the start of the node broadcasts.
abbrev dealt_by_one : GossipsubMessage small
dealt_by_one = dkg (
    share_distribution "1"
      (generate_shares small node_one (generate_polynomial small node_one draws))
      (generate_commitments small (generate_polynomial small node_one draws)))

abbrev full_channel : Channel
full_channel = record { queue = broadcast "t" [] ∷ []; capacity = 1; receiving = true }

-- A node named by a peer id.
abbrev node_named : DkgNode small
node_named = Dkg.new small "12D3KooWQYV9dGMF" 1 3

abbrev share_one : KeyShare small
share_one = record { index = 1; value = residue 3 }

no_number : parse_usize "12D3KooWQYV9dGMF" ≡ none
unfolding parse_usize
no_number = refl

abbrev validation_by_one : GossipsubMessage small
validation_by_one = dkg (share_validation "1" "a" true)

abbrev gossip_of_one : Json (GossipsubMessage small)
gossip_of_one = gossip_json validation_by_one

index_of_one :
    find (λ (s : KeyShare small). s.index == own_index "1") (share_one ∷ []) ≡ some share_one
unfolding own_index parse_usize
index_of_one = refl

deadlocked_one : handle_message small no_json (share_validation "a" "b" true) world_one ≡ (
  blocked,
  record world_one {
    node = record node_one {
      validations = record {
        value = push_validation small "b" true [];
        writing = true;
        readers = 0;
      };
    };
  },
)
deadlocked_one = handle_message_deadlock small no_json world_one "a" "b" true [] refl

abbrev world_with_shares : World small
world_with_shares = record {
  node = record node_one {
    shares = unlocked (("a", share_one) ∷ ("b", record { index = 1; value = residue 4 }) ∷ []);
  };
  channel = channel;
}

key_of_two :
    generate_group_key small world_with_shares
    ≡ (ok (small.◌⊙◌ small.generator (sum small (residue 3 ∷ residue 4 ∷ []))), world_with_shares)
key_of_two = generate_group_key-sum small no_json world_with_shares refl

-- Two distributions of one sender, of which the second one counts.
abbrev two_of_a : List (Distribution small gossip_of_one)
two_of_a =
    ("a", record { index = 1; value = residue 6 } ∷ [], residue 2 ∷ [])
    ∷ ("a", share_one ∷ [], residue 5 ∷ [])
    ∷ []

index_of_six :
    find
      (λ (s : KeyShare small). s.index == own_index "1")
      (record { index = 1; value = residue 6 } ∷ [])
    ≡ some (record { index = 1; value = residue 6 })
unfolding own_index parse_usize
index_of_six = refl

latest_of_a :
    HoldsLatest small gossip_of_one
      (own_index "1")
      two_of_a
      []
      (handle_all small gossip_of_one two_of_a world_one)
latest_of_a =
    handle_all-HoldsLatest small gossip_of_one two_of_a world_one [] [] (refl, refl)
      ((λ h. cc (index_of_six, h)), ((λ h. cc (index_of_one, h)), tt)) (writes, (writes, tt)) refl
      (omega arith)
  where
    writes : gossip_of_one.to_vec validation_by_one ≢ none
    writes h = cc (single_json_writes GossipsubMessage-discrete validation_by_one, h)
