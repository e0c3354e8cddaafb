-- ===== src/Crypto/Points.antt =====
-- What follows from the laws of the points: sums of points, and multiples of the generator.
use mathlib.Core.Path.{◌≡◌, refl, sym, ap, ap₂, ◌∙◌}
use mathlib.Core.List.{List, [], ◌∷◌, map}
use mathlib.Core.List.{Permᴰ}
use mpc_node.Crypto.{Curve}
use mpc_node.Crypto.Field
use mpc_node.Crypto.Field.{sum}

module _ (c : Curve) where
  infixl 65 ◌⊞◌ ◌⊕◌
  infixl 75 ◌⊙◌
  open c use {
    Scalar, zero_scalar, ◌⊕◌, G1Projective, identity, generator, ◌⊞◌, ◌⊙◌, point_assoc, point_comm,
    identity-add, scale-zero, scale-add, add_assoc, add_comm, zero-add,
  }

  pub add-identity : (p : G1Projective) → p ⊞ identity ≡ p
  add-identity p = point_comm p identity ∙ identity-add p

  -- `let mut acc = start; for s in list { acc += s; }`, for scalars and for points.
  unfoldable pub accumulate : Scalar → List Scalar → Scalar
  accumulate acc [] = acc
  accumulate acc (s ∷ ss) = accumulate (acc ⊕ s) ss

  unfoldable pub accumulate_points : G1Projective → List G1Projective → G1Projective
  accumulate_points acc [] = acc
  accumulate_points acc (p ∷ ps) = accumulate_points (acc ⊞ p) ps

  pub accumulate-sum : (acc : Scalar) (ss : List Scalar) → accumulate acc ss ≡ acc ⊕ sum c ss
  unfolding accumulate
  accumulate-sum acc [] = sym (Field.add-zero c acc)
  accumulate-sum acc (s ∷ ss) = accumulate-sum (acc ⊕ s) ss ∙ add_assoc acc s (sum c ss)

  pub accumulate_zero-sum : (ss : List Scalar) → accumulate zero_scalar ss ≡ sum c ss
  accumulate_zero-sum ss = accumulate-sum zero_scalar ss ∙ zero-add (sum c ss)

  -- The multiples of the generator by a list of scalars add up to its multiple by their sum.
  pub accumulate_points-generator :
      (a : Scalar) (ss : List Scalar)
      → accumulate_points (generator ⊙ a) (map (λ s. generator ⊙ s) ss) ≡ generator ⊙ (a ⊕ sum c ss)
  unfolding accumulate_points
  accumulate_points-generator a [] = rw (Field.add-zero c a)
  accumulate_points-generator a (s ∷ ss) =
      ap (λ p. accumulate_points p (map (λ x. generator ⊙ x) ss)) (sym (scale-add generator a s))
      ∙ accumulate_points-generator (a ⊕ s) ss
      ∙ ap (λ x. generator ⊙ x) (add_assoc a s (sum c ss))

  pub accumulate_points-sum :
      (ss : List Scalar)
      → accumulate_points identity (map (λ s. generator ⊙ s) ss) ≡ generator ⊙ sum c ss
  accumulate_points-sum ss =
      ap (λ p. accumulate_points p (map (λ s. generator ⊙ s) ss)) (sym (scale-zero generator))
      ∙ accumulate_points-generator zero_scalar ss
      ∙ ap (λ s. generator ⊙ s) (zero-add (sum c ss))

  -- The order in which a hash map is iterated does not show in a sum.
  pub sum-perm : {xs ys : List Scalar} → Permᴰ xs ys → sum c xs ≡ sum c ys
  sum-perm Permᴰ.nil = refl
  sum-perm (Permᴰ.cons e p) = ap₂ (λ x y. x ⊕ y) e (sum-perm p)
  sum-perm (Permᴰ.swap {a} {b} {l} e e') = rw (← e, ← e') (Field.add_left_comm c a b (sum c l))
  sum-perm (Permᴰ.trans p q) = sum-perm p ∙ sum-perm q

  pub accumulate-perm :
      {xs ys : List Scalar} → Permᴰ xs ys → accumulate zero_scalar xs ≡ accumulate zero_scalar ys
  accumulate-perm {xs} {ys} p = accumulate_zero-sum xs ∙ sum-perm p ∙ sym (accumulate_zero-sum ys)

  -- The same, for what is computed of the entries of two lists.
  pub sum-map-perm :
      {A : Type 0} (f : A → Scalar) {xs ys : List A}
      → Permᴰ xs ys
      → sum c (map f xs) ≡ sum c (map f ys)
  sum-map-perm f Permᴰ.nil = refl
  sum-map-perm f (Permᴰ.cons e p) = ap₂ (λ x y. f x ⊕ y) e (sum-map-perm f p)
  sum-map-perm f (Permᴰ.swap {a} {b} {l} e e') =
      rw (← e, ← e') (Field.add_left_comm c (f a) (f b) (sum c (map f l)))
  sum-map-perm f (Permᴰ.trans p q) = sum-map-perm f p ∙ sum-map-perm f q
