-- ===== src/Tests/CeremonyTests.antt =====
-- The theorems on key generations that come to their end in src/adkg_layer.bkp.rs, applied to the nodes
-- with the indices 1 and 2 over the integers modulo 7. They draw 1 + 2x and 2 + 3x.
use mathlib.Core.List.{Permᴰ}
use mpc_node.Common.{
  ℕ, zero, suc, ◌≡◌, ◌≢◌, refl, ap, String, List, [], ◌∷◌, none, some, Option, Bool, false, ◌==◌,
  if◌then◌else◌, ok, true, arith, eq_iff, All, map, range_from, ◌+◌,
}
use mpc_node.Wire.{Json, Gossip, Bytes}
use mpc_node.Crypto.Small.{small, residue, Residue}
use mpc_node.Adkg.{AdkgMessage, share_ack, reconstruct_secret}
use mpc_node.Adkg.Agreement.{contributions}
use mpc_node.Adkg.Reconstruct.{with_values}
use mpc_node.Adkg.Protocol.{Dealer, proposal_of}
use mpc_node.Adkg.Protocol.{Arrival, IsTaken}
use mpc_node.Adkg.Ceremony.{attend, new_world, attend-IsDone}
use mpc_node.Adkg.Holding.{IsDone}
use mpc_node.Adkg.Shortfall.{Attends, end, end_node, own_share, attend_falls_short}
use mpc_node.Tests.Fixtures.{
  list_json, list_json_writes, position-first, position-later, AdkgMessage-discrete, no_json,
}

-- A gossipsub that refuses to publish without peers, and what it has published already. A swarm without
-- peers is `none`, and another one is the log of what it has published.
abbrev is_seen : ℕ → List Bytes → Bool
is_seen k [] = false
is_seen k ([] ∷ log) = is_seen k log
is_seen k ((j ∷ rest) ∷ log) = if k == j then true else is_seen k log

abbrev publish_new : Option (List Bytes) → String → Bytes → Option (Option (List Bytes))
publish_new none topic bytes = none
publish_new (some log) topic [] = none
publish_new (some log) topic (k ∷ rest) =
    if is_seen k log then none else some (some ((k ∷ rest) ∷ log))

abbrev careful : Gossip
careful = record { Swarm = Option (List Bytes); publish = publish_new }

abbrev name : ℕ → String
name zero = "c"
name (suc zero) = "a"
name (suc (suc i)) = "b"

abbrev rng : ℕ → ℕ → Residue
rng i k = residue (i + k)

abbrev dealer : ℕ → Dealer small
dealer i = (name i, rng i 0, map (rng i) (range_from 1 1))

-- Each node takes the acknowledgement of the other one.
abbrev senders : ℕ → List String
senders zero = []
senders (suc zero) = "b" ∷ []
senders (suc (suc i)) = "a" ∷ []

abbrev proposal : ℕ → AdkgMessage small
proposal i = proposal_of small careful no_json 2 (dealer i)

abbrev ack_ab : AdkgMessage small
ack_ab = share_ack "a" "b" true

abbrev ack_ba : AdkgMessage small
ack_ba = share_ack "b" "a" true

abbrev targets : List (AdkgMessage small)
targets = proposal 1 ∷ proposal 2 ∷ ack_ab ∷ ack_ba ∷ []

abbrev json : Json (AdkgMessage small)
json = list_json AdkgMessage-discrete targets

writes_one : json.to_vec (proposal 1) ≡ some (0 ∷ [])
writes_one =
    list_json_writes AdkgMessage-discrete (proposal 1) targets 0
      (position-first AdkgMessage-discrete (proposal 1) (proposal 2 ∷ ack_ab ∷ ack_ba ∷ []))

writes_two : json.to_vec (proposal 2) ≡ some (1 ∷ [])
writes_two = list_json_writes AdkgMessage-discrete (proposal 2) targets 1 (
    position-later AdkgMessage-discrete (proposal 2) (proposal 1)
      (proposal 2 ∷ ack_ab ∷ ack_ba ∷ []) 0 (λ e. ground (arith, e, eq_iff "a" "b"))
      (position-first AdkgMessage-discrete (proposal 2) (ack_ab ∷ ack_ba ∷ [])))

writes_ab : json.to_vec ack_ab ≡ some (2 ∷ [])
writes_ab = list_json_writes AdkgMessage-discrete ack_ab targets 2 (
    position-later AdkgMessage-discrete ack_ab (proposal 1) (proposal 2 ∷ ack_ab ∷ ack_ba ∷ []) 1
      (λ e. cc)
      (position-later AdkgMessage-discrete ack_ab (proposal 2) (ack_ab ∷ ack_ba ∷ []) 0 (λ e. cc)
        (position-first AdkgMessage-discrete ack_ab (ack_ba ∷ []))))

writes_ba : json.to_vec ack_ba ≡ some (3 ∷ [])
writes_ba = list_json_writes AdkgMessage-discrete ack_ba targets 3 (
    position-later AdkgMessage-discrete ack_ba (proposal 1) (proposal 2 ∷ ack_ab ∷ ack_ba ∷ []) 2
      (λ e. cc)
      (position-later AdkgMessage-discrete ack_ba (proposal 2) (ack_ab ∷ ack_ba ∷ []) 1 (λ e. cc)
        (position-later AdkgMessage-discrete ack_ba ack_ab (ack_ba ∷ []) 0
          (λ e. ground (arith, e, eq_iff "a" "b"))
          (position-first AdkgMessage-discrete ack_ba []))))

a_ne_b : ◌≢◌ {A = String} "a" "b"
a_ne_b e = ground (arith, e, eq_iff "a" "b")

b_ne_a : ◌≢◌ {A = String} "b" "a"
b_ne_a e = ground (arith, e, eq_iff "b" "a")

one_ne_two : residue 2 ≢ residue 1
one_ne_two h = omega (arith, ap (λ (r : Residue). r.0) h)

one-IsTaken : IsTaken small careful json (some []) (proposal 1)
one-IsTaken = record {
  bytes = 0 ∷ [];
  later = some ((0 ∷ []) ∷ []);
  written = writes_one;
  sent = refl;
}

two-IsTaken : IsTaken small careful json (some []) (proposal 2)
two-IsTaken = record {
  bytes = 1 ∷ [];
  later = some ((1 ∷ []) ∷ []);
  written = writes_two;
  sent = refl;
}

ab-IsTaken : IsTaken small careful json (some ((0 ∷ []) ∷ [])) ack_ab
ab-IsTaken = record {
  bytes = 2 ∷ [];
  later = some ((2 ∷ []) ∷ (0 ∷ []) ∷ []);
  written = writes_ab;
  sent = refl;
}

ba-IsTaken : IsTaken small careful json (some ((1 ∷ []) ∷ [])) ack_ba
ba-IsTaken = record {
  bytes = 3 ∷ [];
  later = some ((3 ∷ []) ∷ (1 ∷ []) ∷ []);
  written = writes_ba;
  sent = refl;
}

abbrev swarm : ℕ → Option (List Bytes)
swarm i = some []

-- Each node hears the other one, after it has published its own proposal.
abbrev arrivals : ℕ → List (Arrival small careful json)
arrivals zero = []
arrivals (suc zero) = record { swarm = some ((0 ∷ []) ∷ []); dealer = dealer 2 } ∷ []
arrivals (suc (suc i)) = record { swarm = some ((1 ∷ []) ∷ []); dealer = dealer 1 } ∷ []

one-Attends : Attends small careful json 2 1 swarm name rng arrivals senders (1 ∷ 2 ∷ []) 1
one-Attends = record {
  lower = omega arith;
  upper = omega arith;
  distinct = (tt, tt);
  others = (b_ne_a, tt);
  everyone = Permᴰ.cons refl (Permᴰ.cons refl Permᴰ.nil);
  enough = omega arith;
  taken = one-IsTaken;
  taken_acks = (ab-IsTaken, tt);
}

two-Attends : Attends small careful json 2 1 swarm name rng arrivals senders (1 ∷ 2 ∷ []) 2
two-Attends = record {
  lower = omega arith;
  upper = omega arith;
  distinct = (tt, tt);
  others = (a_ne_b, tt);
  everyone = Permᴰ.swap refl refl;
  enough = omega arith;
  taken = two-IsTaken;
  taken_acks = (ba-IsTaken, tt);
}

-- Node 1, which hears node 2: its key share is 2 + 3, and the public key that of 1 + 2.
IsDone-one :
    let last =
      attend small careful json
        (rng 1)
        (arrivals 1)
        (senders 1)
        (new_world small careful json "a" 2 1 1 (some [])) in
    (last.0 ≡ ok tt)
    × (last.1.node.idx ≡ 1)
    × IsDone small careful json "a" 1 1 (dealer 2 ∷ []) (dealer 1 ∷ dealer 2 ∷ []) last.1.node
IsDone-one =
    attend-IsDone small careful json "a" 2 1 1 (some []) (rng 1) (arrivals 1) (senders 1)
      (omega arith) (omega arith) (omega arith) (tt, tt) (b_ne_a, tt) (omega arith) one-IsTaken
      (ab-IsTaken, tt)

-- The public key belongs to 3. What the nodes miss is not zero: the values 3 at 1 and 1 at 2
-- reconstruct 5.
short_of_three :
    All
      (λ i.
        ((end small careful json 2 1 swarm name rng arrivals senders (1 ∷ 2 ∷ []) i).0 ≡ ok tt)
        × ((end_node small careful json 2 1 swarm name rng arrivals senders
              (1 ∷ 2 ∷ [])
              i).public_key
            ≡ some (residue 3)))
      (1 ∷ 2 ∷ [])
    × (r : Residue) × (missing : Residue) × (reconstruct_secret small (
          contributions small (
            map
              (end_node small careful json 2 1 swarm name rng arrivals senders (1 ∷ 2 ∷ []))
              (1 ∷ 2 ∷ [])))
        ≡ some r)
    × (reconstruct_secret small (
          with_values small
            (own_share small careful json 2 1 swarm name rng arrivals senders (1 ∷ 2 ∷ []))
            (1 ∷ 2 ∷ []))
        ≡ some missing)
    × (small.◌⊕◌ r missing ≡ residue 3)
short_of_three =
    attend_falls_short small careful json 2 1 swarm name rng arrivals senders (1 ∷ 2 ∷ [])
      (omega arith) ((one_ne_two, tt), (tt, tt)) (omega arith) (one-Attends, (two-Attends, tt))
