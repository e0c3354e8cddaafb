-- ===== src/Tests/ClusterTests.antt =====
-- The theorems on several nodes of src/adkg_layer.bkp.rs, applied to two nodes over the integers
-- modulo 7: node 0 deals, node 1 deals and takes what node 0 has dealt to it.
use mpc_node.Common.{Bool, get_elem?}
use mpc_node.Common.{
  ℕ, zero, suc, ◌≡◌, ◌≢◌, refl, String, List, [], ◌∷◌, some, ok, true, Outcome, arith, eq_iff, map,
  range_from,
}
use mpc_node.Common.HashMap.{lookup, insert}
use mpc_node.Wire.{Json, Bytes}
use mpc_node.Crypto.Small.{small, residue, Residue}
use mpc_node.Adkg
use mpc_node.Adkg.{
  share_ack, AdkgMessage, World, evaluate_polynomial, generate_commitments, handle_message,
  start_adkg, verify_commitments,
}
use mpc_node.Adkg.Completion.{stored}
use mpc_node.Adkg.Protocol.{
  handle_message_honest, coeffs, proposal_of, dealt_shares, dealt_commitments,
}
use mpc_node.Adkg.Start.{started, start_adkg-started}
use mpc_node.Cluster.{
  Recorded, Setup, waiting, crashed, phase_after, Net, moved, start, receive, Reach, begin, step,
}
use mpc_node.Cluster.Dealt.{dealer}
use mpc_node.Cluster.Completion.{handle_message-Reach}
use mpc_node.Crypto.Field.{sum}
use mpc_node.Adkg.Delivery.{Distinct}
use mpc_node.Cluster.Acks.{AllAcks, IsBacked, acks-Reach}
use mpc_node.Cluster.Safety.{share_ack-Reach, phase-Reach, lookup-Reach}
use mpc_node.Tests.Fixtures.{
  open_gossip, list_json, list_json_writes, position-first, position-later, AdkgMessage-discrete,
  draws, no_json,
}

some_log : (s s' : List Bytes) (bytes : Bytes) → some (bytes ∷ s) ≡ some s' → s' ≡ bytes ∷ s
some_log s s' bytes e = cc

abbrev log : Recorded open_gossip
log = record {
  published = λ swarm. swarm;
  published-publish = λ s s' topic bytes e. some_log s s' bytes e;
}

abbrev name : ℕ → String
name zero = "a"
name (suc p) = "b"

abbrev setup : Setup small
setup = record { name = name; idx = λ p. suc p; n = 2; t = 1; rng = λ p. draws }

abbrev proposal : String → AdkgMessage small
proposal id = proposal_of small open_gossip no_json 2 (id, residue 0, map draws (range_from 1 1))

-- The acknowledgement of node 1.
abbrev ack : AdkgMessage small
ack = share_ack "b" "a" true

abbrev json : Json (AdkgMessage small)
json = list_json AdkgMessage-discrete (proposal "a" ∷ proposal "b" ∷ ack ∷ [])

writes_a : json.to_vec (proposal "a") ≡ some (0 ∷ [])
writes_a =
    list_json_writes AdkgMessage-discrete (proposal "a") (proposal "a" ∷ proposal "b" ∷ ack ∷ []) 0
      (position-first AdkgMessage-discrete (proposal "a") (proposal "b" ∷ ack ∷ []))

writes_b : json.to_vec (proposal "b") ≡ some (1 ∷ [])
writes_b =
    list_json_writes AdkgMessage-discrete (proposal "b") (proposal "a" ∷ proposal "b" ∷ ack ∷ []) 1
      (position-later AdkgMessage-discrete (proposal "b") (proposal "a") (proposal "b" ∷ ack ∷ []) 0
        (λ e. ground (arith, e, eq_iff "a" "b"))
        (position-first AdkgMessage-discrete (proposal "b") (ack ∷ [])))

writes_ack : json.to_vec ack ≡ some (2 ∷ [])
writes_ack = list_json_writes AdkgMessage-discrete ack (proposal "a" ∷ proposal "b" ∷ ack ∷ []) 2 (
    position-later AdkgMessage-discrete ack (proposal "a") (proposal "b" ∷ ack ∷ []) 1 (λ e. cc)
      (position-later AdkgMessage-discrete ack (proposal "b") (ack ∷ []) 0 (λ e. cc)
        (position-first AdkgMessage-discrete ack [])))

abbrev first : Net small open_gossip
first = record {
  world = λ p. record { node = Adkg.new small (name p) 2 1 (suc p); swarm = [] };
  phase = λ p. waiting;
}

at_first : Reach small open_gossip json log setup first
at_first = begin (record { is_new = λ p. refl; is_silent = λ p. refl; is_waiting = λ p. refl })

-- Node 0 has dealt.
abbrev dealt_by_zero : World small open_gossip
dealt_by_zero = started small open_gossip json (first.world 0) draws ((0 ∷ []) ∷ [])

abbrev second : Net small open_gossip
second = moved small open_gossip first 0 (ok tt) dealt_by_zero

at_second : Reach small open_gossip json log setup second
at_second = step at_first (
    start 0 (ok tt) _ refl
      (start_adkg-started small open_gossip json (first.world 0) draws (0 ∷ []) ((0 ∷ []) ∷ [])
        writes_a refl)
      refl)

-- Node 1 has dealt too.
abbrev dealt_by_one : World small open_gossip
dealt_by_one = started small open_gossip json (first.world 1) draws ((1 ∷ []) ∷ [])

abbrev third : Net small open_gossip
third = moved small open_gossip second 1 (ok tt) dealt_by_one

at_third : Reach small open_gossip json log setup third
unfolding moved
at_third = step at_second (
    start 1 (ok tt) _ refl
      (start_adkg-started small open_gossip json (first.world 1) draws (1 ∷ []) ((1 ∷ []) ∷ [])
        writes_b refl)
      refl)

abbrev of_a : List Residue
of_a = coeffs small (dealer small setup 0)

-- Node 1 has taken its share and acknowledged it.
abbrev taken_by_one : World small open_gossip
taken_by_one = record {
  node =
      stored small open_gossip json dealt_by_one.node "a" (evaluate_polynomial small of_a 2)
        (generate_commitments small of_a);
  swarm = (2 ∷ []) ∷ (1 ∷ []) ∷ [];
}

abbrev fourth : Net small open_gossip
fourth = moved small open_gossip third 1 (ok tt) taken_by_one

at_fourth : Reach small open_gossip json log setup fourth
unfolding moved phase_after
at_fourth = step at_third (
    receive 1 0 0 (0 ∷ []) (proposal "a") (ok tt) taken_by_one refl (λ e. cc) refl refl
      (handle_message_honest small open_gossip json dealt_by_one 2 (dealer small setup 0) (2 ∷ [])
        ((2 ∷ []) ∷ (1 ∷ []) ∷ []) (omega arith) (omega arith) writes_ack refl)
      refl)

-- Node 0 has the acknowledgement, which is the one that it waits for.
abbrev completed : Outcome (Unit {0}) × World small open_gossip
completed = handle_message small open_gossip json ack dealt_by_zero

abbrev fifth : Net small open_gossip
fifth = moved small open_gossip fourth 0 completed.0 completed.1

at_fifth : Reach small open_gossip json log setup fifth
unfolding moved phase_after
at_fifth =
    step at_fourth
      (receive 0 1 0 (2 ∷ []) ack completed.0 completed.1 refl (λ e. cc) refl refl refl refl)

has_share : lookup "a" (fourth.world 1).node.shares ≡ some (evaluate_polynomial small of_a 2)
unfolding moved lookup insert
has_share = refl

has_commitments :
    lookup "a" (fourth.world 0).node.commitments ≡ some (generate_commitments small of_a)
unfolding moved lookup insert
has_commitments = refl

named_a : (p q : ℕ) → name p ≡ "a" → name q ≡ "a" → p ≡ q
named_a zero zero e e' = refl
named_a zero (suc q) e e' = ground (arith, e', eq_iff "b" "a")
named_a (suc p) q e e' = ground (arith, e, eq_iff "b" "a")

from_zero :
    (p : ℕ) × ("a" ≡ name p)
    × (evaluate_polynomial small of_a 2
        ≡ evaluate_polynomial small (coeffs small (dealer small setup p)) 2)
    × (generate_commitments small of_a
        ≡ generate_commitments small (coeffs small (dealer small setup p)))
from_zero =
    lookup-Reach small open_gossip json log setup at_fourth 1 0 "a"
      (evaluate_polynomial small of_a 2) (generate_commitments small of_a) named_a has_share
      has_commitments

keys_of_one :
    let last = handle_message small open_gossip json (share_ack "a" "b" true) (fifth.world 1) in
    (held : List ℕ) × (committed : List ℕ) × Distinct small (map (dealer small setup) held)
    × Distinct small (map (dealer small setup) committed)
    × ((fifth.world 1).node.shares ≡ dealt_shares small 2 (map (dealer small setup) held))
    × ((fifth.world 1).node.commitments
        ≡ dealt_commitments small (map (dealer small setup) committed))
    × (last.0 ≡ ok tt)
    × (last.1.node.secret_key_share
        ≡ some (
            sum small (
              map
                (λ d. evaluate_polynomial small (coeffs small d) 2)
                (map (dealer small setup) held))))
    × (last.1.node.public_key
        ≡ some (
            small.◌⊙◌ small.generator
              (sum small (map (λ d. d.1) (map (dealer small setup) committed)))))
keys_of_one = handle_message-Reach small open_gossip json log setup at_fifth 1 "a" (omega arith)

never_crashed : fifth.phase 0 ≢ crashed
never_crashed = phase-Reach small open_gossip json log setup at_fifth 0

found : get_elem? (fifth.world 1).swarm 0 ≡ some (2 ∷ [])
unfolding moved
found = refl

acknowledged_by_one :
    ("b" ≡ name 1)
    × (◌≡◌ {A = Bool} true true)
    × ((p : ℕ) × ("a" ≡ name p)
        × (lookup "a" (fifth.world 1).node.shares
            ≡ some (evaluate_polynomial small (coeffs small (dealer small setup p)) 2)))
acknowledged_by_one =
    share_ack-Reach small open_gossip json log setup at_fifth 1 0 (2 ∷ []) "b" "a" true found refl

acks_of_zero :
    AllAcks small (IsBacked small open_gossip json log setup fifth 0) (fifth.world 0).node.acks
acks_of_zero = acks-Reach small open_gossip json log setup at_fifth 0
