-- ===== src/Frost/Nonces.antt =====
-- How src/frost/mod.rs uses its nonces up.
use mpc_node.Common.{
  ℕ, zero, suc, ◌+◌, ◌≡◌, refl, ap, ◌∙◌, String, List, [], ◌∷◌, ◌++◌, length, length-append, drop,
  none, some, arith,
}
use Prim.Native.Nat.{min}
use mpc_node.Crypto.{Curve}
use mpc_node.Frost.{FrostSigner, sign, generate_nonces, push_nonces}

module _ (c : Curve) where
  open c use {Scalar}

  length-push_nonces :
      (rng : ℕ → Scalar) (drawn count : ℕ) (nonces : List (Scalar × Scalar))
      → length (push_nonces c rng drawn count nonces) ≡ length nonces + count
  unfolding push_nonces
  length-push_nonces rng drawn zero nonces = omega arith
  length-push_nonces rng drawn (suc count) nonces = omega (
    arith,
    length-append nonces ((rng drawn, rng (suc drawn)) ∷ []),
    length-push_nonces rng (suc (suc drawn)) count (nonces ++ (rng drawn, rng (suc drawn)) ∷ []),
  )

  -- `n` calls of `sign`, one after another, and how many of them gave a signature share.
  pub sign_times : ℕ → List ℕ → List String → FrostSigner c → ℕ × FrostSigner c
  sign_times zero message participants signer = (0, signer)
  sign_times (suc n) message participants signer =
      let (result, signer') = sign c message participants signer in
      let (count, last) = sign_times n message participants signer' in
      (elim result [ none ↦ count | some share ↦ suc count ], last)

  sign_times-drop :
      (n : ℕ) (message : List ℕ) (participants : List String) (nonces : List (Scalar × Scalar))
      (signer : FrostSigner c)
      → signer.nonces ≡ nonces
      → sign_times n message participants signer
        ≡ (min n (length nonces), record signer { nonces = drop n nonces })
  unfolding sign_times sign
  sign_times-drop zero message participants nonces signer e = ground (arith, e)
  sign_times-drop (suc n) message participants [] signer e =
      ground (arith, e, sign_times-drop n message participants [] signer e, drop_nil n)
    where
      drop_nil : (k : ℕ) → drop {A = Scalar × Scalar} k [] ≡ []
      drop_nil zero = refl
      drop_nil (suc k) = refl
  sign_times-drop (suc n) message participants (x ∷ xs) signer e =
      ground
        (arith, e, sign_times-drop n message participants xs (record signer { nonces = xs }) refl)

  -- After `count` more pairs of nonces are drawn, of `n` calls of `sign` in a row as many give a
  -- share as there are pairs, old and new together; the others give none.
  pub sign_times-generate_nonces :
      (n count : ℕ) (rng : ℕ → Scalar) (message : List ℕ) (participants : List String)
      (signer : FrostSigner c)
      → (sign_times n message participants (generate_nonces c rng count signer)).0
        ≡ min n (length signer.nonces + count)
  unfolding generate_nonces
  sign_times-generate_nonces n count rng message participants signer =
      ap (λ r. r.0)
        (sign_times-drop n message participants (push_nonces c rng 0 count signer.nonces)
          (record signer { nonces = push_nonces c rng 0 count signer.nonces }) refl)
      ∙ ap (min n) (length-push_nonces rng 0 count signer.nonces)
