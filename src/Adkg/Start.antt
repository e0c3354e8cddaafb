-- ===== src/Adkg/Start.antt =====
-- `start_adkg` of src/adkg_layer.bkp.rs where its proposal can be written and published: the dealer that
-- the node is, and the state after it.
use mpc_node.Common.{ℕ, ◌≡◌, refl, map, range_from, some, ok}
use mpc_node.Common.HashMap.{insert}
use mpc_node.Crypto.{Curve}
use mpc_node.Wire.{Json, Gossip, Bytes}
use mpc_node.Adkg.{AdkgMessage, World, generate_commitments, generate_polynomial, start_adkg}
use mpc_node.Adkg.Protocol.{Dealer, coeffs, proposal_of}

module _ (c : Curve) (g : Gossip) (json : Json (AdkgMessage c)) where
  infixl 75 ◌⊙◌
  open c use {Scalar, generator, ◌⊙◌}

  -- The node as a dealer of its own: its secret is the first scalar that it draws.
  abbrev pub own_dealer : World c g → (ℕ → Scalar) → Dealer c
  own_dealer w rng = (w.node.id, rng 0, map rng (range_from 1 w.node.t))

  abbrev pub started : World c g → (ℕ → Scalar) → g.Swarm → World c g
  started w rng swarm = record {
    node = record w.node {
      commitments =
          insert w.node.id (generate_commitments c (coeffs c (own_dealer w rng)))
            w.node.commitments;
    };
    swarm = swarm;
  }

  pub start_adkg-started :
      (w : World c g) (rng : ℕ → Scalar) (bytes : Bytes) (swarm : g.Swarm)
      → json.to_vec (proposal_of c g json w.node.n (own_dealer w rng)) ≡ some bytes
      → g.publish w.swarm "/adkg/1.0.0" bytes ≡ some swarm
      → start_adkg c g json rng w ≡ (ok tt, started w rng swarm)
  unfolding start_adkg generate_polynomial
  start_adkg-started w rng bytes swarm e p = rw (e, p) refl
