-- ===== src/Cluster/Dealt.antt =====
-- What the nodes of a network of src/adkg_layer.bkp.rs have to do with one another: each is a dealer, and
-- what another holds of it under its name is what it has dealt.
use mathlib.Core.Path.{subst}
use mpc_node.Common.{ℕ, ◌≡◌, ◌≢◌, refl, ap₂, String, List, [], ◌∷◌, map, range_from, All}
use mpc_node.Common.HashMap.{HashMap, IsUnique}
use mpc_node.Crypto.{Curve}
use mpc_node.Adkg.{evaluate_polynomial, generate_commitments}
use mpc_node.Adkg.Protocol.{Dealer, coeffs}
use mpc_node.Adkg.Delivery.{Distinct}
use mpc_node.Cluster.{Setup}

module _ (c : Curve) (setup : Setup c) where
  infixl 75 ◌⊙◌
  open c use {Scalar, G1Affine, G1Projective, generator, ◌⊙◌, zero_scalar, identity}

  -- Node `p` as a dealer: the first scalar that it draws is its secret.
  abbrev pub dealer : ℕ → Dealer c
  dealer p = (setup.name p, setup.rng p 0, map (setup.rng p) (range_from 1 setup.t))

  -- A share at node `i`, under the name of a dealer.
  abbrev pub IsShare : ℕ → String × Scalar → Type 0
  IsShare i entry =
      (p : ℕ) × (entry.0 ≡ setup.name p)
      × (entry.1 ≡ evaluate_polynomial c (coeffs c (dealer p)) (setup.idx i))

  abbrev pub IsCommitted : String × List G1Affine → Type 0
  IsCommitted entry =
      (p : ℕ) × (entry.0 ≡ setup.name p) × (entry.1 ≡ generate_commitments c (coeffs c (dealer p)))

  others_differ :
      {V : Type 0} (k : String) (m : HashMap V) (ps : List ℕ) (f : Dealer c → V)
      → m ≡ map (λ d. (d.0, f d)) (map dealer ps)
      → All (λ (other : String × V). other.0 ≢ k) m
      → All (λ (d : Dealer c). d.0 ≢ k) (map dealer ps)
  others_differ {V} k m ps f e h = go ps (subst (All (λ (other : String × V). other.0 ≢ k)) e h)
    where
      go :
          (ps : List ℕ)
          → All (λ (other : String × V). other.0 ≢ k) (map (λ d. (d.0, f d)) (map dealer ps))
          → All (λ (d : Dealer c). d.0 ≢ k) (map dealer ps)
      go [] h = tt
      go (p ∷ ps) h = (h.0, go ps h.1)

  -- A map whose entries come from dealers, each under one name, is what these dealers have dealt.
  pub dealers_of :
      {V : Type 0} (f : Dealer c → V) (m : HashMap V)
      → All
          (λ (entry : String × V). (p : ℕ) × (entry.0 ≡ setup.name p) × (entry.1 ≡ f (dealer p)))
          m
      → IsUnique m
      → (ps : List ℕ) × Distinct c (map dealer ps) × (m ≡ map (λ d. (d.0, f d)) (map dealer ps))
  dealers_of f [] h u = ([], tt, refl)
  dealers_of {V} f (entry ∷ m) ((p, named, e), h) u =
      let (ps, distinct, same) = dealers_of f m h u.1 in
      (
        p ∷ ps,
        (
          subst (λ k. All (λ (d : Dealer c). d.0 ≢ k) (map dealer ps)) named
              (others_differ entry.0 m ps f same u.0),
          distinct,
        ),
        ap₂ (λ k (r : V × HashMap V). (k, r.0) ∷ r.1) named (ap₂ (λ v rest. (v, rest)) e same),
      )
