-- ===== src/Crypto/Field.antt =====
-- What follows from the laws of the scalar field alone.
use mathlib.Core.Path.{◌≡◌, refl, sym, ap, ◌∙◌}
use mathlib.Core.Logic.{◌≢◌}
use mathlib.Core.Option.{Option, none, some}
use mathlib.Core.List.{List, [], ◌∷◌, ◌++◌}
use mpc_node.Crypto.{Curve}

module _ (c : Curve) where
  infixl 65 ◌⊕◌ ◌⊖◌
  infixl 70 ◌⊗◌
  open c use {
    Scalar, zero_scalar, one_scalar, ◌⊕◌, ◌⊖◌, ◌⊗◌, invert, add_assoc, add_comm, zero-add, sub-add,
    add-sub, mul_assoc, mul_comm, one-mul, mul-add, invert_some, invert_ne,
  }

  pub add_left_comm : (a b d : Scalar) → a ⊕ (b ⊕ d) ≡ b ⊕ (a ⊕ d)
  add_left_comm a b d = sym (add_assoc a b d) ∙ ap (λ x. x ⊕ d) (add_comm a b) ∙ add_assoc b a d

  pub add_interchange : (a b d e : Scalar) → (a ⊕ b) ⊕ (d ⊕ e) ≡ (a ⊕ d) ⊕ (b ⊕ e)
  add_interchange a b d e =
      add_assoc a b (d ⊕ e) ∙ ap (λ x. a ⊕ x) (add_left_comm b d e) ∙ sym (add_assoc a d (b ⊕ e))

  pub mul_left_comm : (a b d : Scalar) → a ⊗ (b ⊗ d) ≡ b ⊗ (a ⊗ d)
  mul_left_comm a b d = sym (mul_assoc a b d) ∙ ap (λ x. x ⊗ d) (mul_comm a b) ∙ mul_assoc b a d

  pub add-zero : (a : Scalar) → a ⊕ zero_scalar ≡ a
  add-zero a = add_comm a zero_scalar ∙ zero-add a

  pub mul-one : (a : Scalar) → a ⊗ one_scalar ≡ a
  mul-one a = mul_comm a one_scalar ∙ one-mul a

  pub add-mul : (a b d : Scalar) → (a ⊕ b) ⊗ d ≡ a ⊗ d ⊕ b ⊗ d
  add-mul a b d = rw (mul_comm (a ⊕ b) d, mul-add d a b, mul_comm d a, mul_comm d b)

  pub add_cancel : (a b d : Scalar) → a ⊕ d ≡ b ⊕ d → a ≡ b
  add_cancel a b d h = sym (add-sub a d) ∙ ap (λ x. x ⊖ d) h ∙ add-sub b d

  pub sub_self : (a : Scalar) → a ⊖ a ≡ zero_scalar
  sub_self a = add_cancel (a ⊖ a) zero_scalar a (sub-add a a ∙ sym (zero-add a))

  pub mul-zero : (a : Scalar) → a ⊗ zero_scalar ≡ zero_scalar
  mul-zero a = add_cancel (a ⊗ zero_scalar) zero_scalar (a ⊗ zero_scalar) (
      sym (mul-add a zero_scalar zero_scalar)
      ∙ ap (λ x. a ⊗ x) (zero-add zero_scalar)
      ∙ sym (zero-add (a ⊗ zero_scalar)))

  pub zero-mul : (a : Scalar) → zero_scalar ⊗ a ≡ zero_scalar
  zero-mul a = mul_comm zero_scalar a ∙ mul-zero a

  pub sub-mul : (a b d : Scalar) → (a ⊖ b) ⊗ d ≡ a ⊗ d ⊖ b ⊗ d
  sub-mul a b d =
      add_cancel ((a ⊖ b) ⊗ d) (a ⊗ d ⊖ b ⊗ d) (b ⊗ d)
        (sym (add-mul (a ⊖ b) b d) ∙ ap (λ x. x ⊗ d) (sub-add a b) ∙ sym (sub-add (a ⊗ d) (b ⊗ d)))

  pub eq_of_sub_zero : (a b : Scalar) → a ⊖ b ≡ zero_scalar → a ≡ b
  eq_of_sub_zero a b h = sym (sub-add a b) ∙ ap (λ x. x ⊕ b) h ∙ zero-add b

  -- The value of `invert(..).unwrap()` where it does not panic.
  abbrev pub inverse : Scalar → Scalar
  inverse a = elim (invert a) [ none ↦ zero_scalar | some b ↦ b ]

  pub invert-inverse : (a : Scalar) → a ≢ zero_scalar → invert a ≡ some (inverse a)
  invert-inverse a h = value (invert a) (invert_ne a h)
    where
      value : (o : Option Scalar) → o ≢ none → o ≡ some (elim o [ none ↦ zero_scalar | some b ↦ b ])
      value none k = absurd (k refl)
      value (some b) k = refl

  pub mul-inverse : (a : Scalar) → a ≢ zero_scalar → a ⊗ inverse a ≡ one_scalar
  mul-inverse a h = invert_some a (inverse a) (invert-inverse a h)

  -- Division by a difference of distinct scalars.
  pub mul_cancel : (a b d : Scalar) → d ≢ zero_scalar → d ⊗ a ≡ d ⊗ b → a ≡ b
  mul_cancel a b d h e = sym (undo a) ∙ ap (λ x. inverse d ⊗ x) e ∙ undo b
    where
      undo : (x : Scalar) → inverse d ⊗ (d ⊗ x) ≡ x
      undo x =
          sym (mul_assoc (inverse d) d x)
          ∙ ap (λ y. y ⊗ x) (mul_comm (inverse d) d ∙ mul-inverse d h)
          ∙ one-mul x

  abbrev pub sum : List Scalar → Scalar
  sum [] = zero_scalar
  sum (a ∷ as') = a ⊕ sum as'

  pub sum-append : (xs ys : List Scalar) → sum (xs ++ ys) ≡ sum xs ⊕ sum ys
  sum-append [] ys = sym (zero-add (sum ys))
  sum-append (x ∷ xs) ys = rw (sum-append xs ys) (sym (add_assoc x (sum xs) (sum ys)))
