-- ===== src/Cluster.antt =====
-- Several nodes of src/adkg_layer.bkp.rs on one gossip network, each driven as `run` in
-- src/network_layer.rs drives it: it deals first, then handles what the others have published. The
-- network delivers what it has to whom it wants, in any order, late, several times or never. Users
-- type nothing, and bytes that are no message are only printed.
pub mod Dealt
pub mod Sent
pub mod Honest
pub mod Invariant
pub mod Safety
pub mod Completion
pub mod Acks
use mpc_node.Common.{
  ℕ, ◌≡◌, ◌≢◌, String, Bool, true, false, some, List, [], ◌∷◌, map, range_from, get_elem?, ◌==◌,
  Outcome, ok, err, panicked, blocked, if◌then◌else◌,
}
use mpc_node.Crypto.{Curve}
use mpc_node.Wire.{Json, Gossip, Bytes}
use mpc_node.Adkg
use mpc_node.Adkg.{AdkgMessage, World, handle_message, start_adkg}
use mpc_node.Adkg.Protocol.{Dealer}

-- What a node has published so far.
pub record Recorded (g : Gossip) : Type 0 where
  pub published : g.Swarm → List Bytes
  pub published-publish :
      (s s' : g.Swarm) (topic : String) (bytes : Bytes)
      → g.publish s topic bytes ≡ some s'
      → published s' ≡ bytes ∷ published s

-- The arguments of `run` at each node, its peer id and the scalars that it draws.
pub record Setup (c : Curve) : Type 0 where
  pub name : ℕ → String
  pub idx : ℕ → ℕ
  pub n : ℕ
  pub t : ℕ
  pub rng : ℕ → ℕ → c.Scalar

-- A node has not dealt yet, is in its loop, or has ended, by an error or by a panic.
pub data Phase : Type 0 where
  waiting : Phase
  looping : Phase
  refused : Phase
  crashed : Phase

-- Where an outcome leads.
unfoldable pub phase_after : Outcome (Unit {0}) → Phase
phase_after (ok u) = looping
phase_after (err e) = refused
phase_after panicked = crashed
phase_after blocked = crashed

module _ (c : Curve) (g : Gossip) where
  pub record Net : Type 0 where
    pub world : ℕ → World c g
    pub phase : ℕ → Phase

  -- Node `i` has done something with this outcome and is now in this world.
  unfoldable pub moved : Net → ℕ → Outcome (Unit {0}) → World c g → Net
  moved net i r w = record {
    world = λ j. if i == j then w else net.world j;
    phase = λ j. if i == j then phase_after r else net.phase j;
  }

module _ (c : Curve) (g : Gossip) (json : Json (AdkgMessage c)) (rec : Recorded g)
    (setup : Setup c) where
  pub data Step (net net' : Net c g) : Type 0 where
    start :
        (i : ℕ) (r : Outcome (Unit {0})) (w : World c g)
        → net.phase i ≡ waiting
        → start_adkg c g json (setup.rng i) (net.world i) ≡ (r, w)
        → net' ≡ moved c g net i r w
        → Step net net'
    receive :
        (i from at : ℕ) (bytes : Bytes) (msg : AdkgMessage c) (r : Outcome (Unit {0}))
        (w : World c g)
        → net.phase i ≡ looping
        → from ≢ i
        → get_elem? (rec.published (net.world from).swarm) at ≡ some bytes
        → json.from_slice bytes ≡ some msg
        → handle_message c g json msg (net.world i) ≡ (r, w)
        → net' ≡ moved c g net i r w
        → Step net net'

  -- Nodes that have published nothing.
  pub record IsInitial (net : Net c g) : Type 0 where
    pub is_new :
        (i : ℕ) → (net.world i).node ≡ Adkg.new c (setup.name i) setup.n setup.t (setup.idx i)
    pub is_silent : (i : ℕ) → rec.published (net.world i).swarm ≡ []
    pub is_waiting : (i : ℕ) → net.phase i ≡ waiting

  pub data Reach : Net c g → Type 0 where
    begin : {net : Net c g} → IsInitial net → Reach net
    step : {net net' : Net c g} → Reach net → Step net net' → Reach net'
