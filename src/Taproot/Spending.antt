-- ===== src/Taproot/Spending.antt =====
-- Whether the witness that troot/src/main.rs builds satisfies its script.
use mpc_node.Common.{ℕ, suc, ◌≡◌, ◌∙◌, Bool, true, false, List, [], ◌∷◌, ◌==◌, Bool-cases, inl, inr}
use mpc_node.Taproot.{
  Instruction, push_key, push_int, op_checksig, op_checksigadd, op_numequal, tapscript, signatures,
}

-- An element of the stack: a key, a number, or a signature, which may be the empty string.
pub data Element (Key Signature : Type 0) : Type 0 where
  a_key : Key → Element Key Signature
  a_number : ℕ → Element Key Signature
  a_signature : Signature → Element Key Signature
  no_signature : Element Key Signature

-- The rules of BIP 342 for the instructions of the script, on a stack whose top stands first. `accepts`
-- is whether the run ends well. A signature that is not empty has to be valid.
pub record Interpreter (Key Signature : Type 0) : Type 0 where
  pub is_valid : Key → Signature → Bool
  pub accepts : List (Instruction Key) → List (Element Key Signature) → Bool
  pub key_pushed :
      (k : Key) (rest : List (Instruction Key)) (stack : List (Element Key Signature))
      → accepts (push_key k ∷ rest) stack ≡ accepts rest (a_key k ∷ stack)
  pub number_pushed :
      (n : ℕ) (rest : List (Instruction Key)) (stack : List (Element Key Signature))
      → accepts (push_int n ∷ rest) stack ≡ accepts rest (a_number n ∷ stack)
  pub checksig_invalid :
      (k : Key) (s : Signature) (rest : List (Instruction Key))
      (stack : List (Element Key Signature))
      → is_valid k s ≡ false
      → accepts (op_checksig ∷ rest) (a_key k ∷ a_signature s ∷ stack) ≡ false
  pub checksig_valid :
      (k : Key) (s : Signature) (rest : List (Instruction Key))
      (stack : List (Element Key Signature))
      → is_valid k s ≡ true
      → accepts (op_checksig ∷ rest) (a_key k ∷ a_signature s ∷ stack)
        ≡ accepts rest (a_number 1 ∷ stack)
  pub checksigadd_invalid :
      (k : Key) (n : ℕ) (s : Signature) (rest : List (Instruction Key))
      (stack : List (Element Key Signature))
      → is_valid k s ≡ false
      → accepts (op_checksigadd ∷ rest) (a_key k ∷ a_number n ∷ a_signature s ∷ stack) ≡ false
  pub checksigadd_valid :
      (k : Key) (n : ℕ) (s : Signature) (rest : List (Instruction Key))
      (stack : List (Element Key Signature))
      → is_valid k s ≡ true
      → accepts (op_checksigadd ∷ rest) (a_key k ∷ a_number n ∷ a_signature s ∷ stack)
        ≡ accepts rest (a_number (suc n) ∷ stack)
  pub checksigadd_empty :
      (k : Key) (n : ℕ) (rest : List (Instruction Key)) (stack : List (Element Key Signature))
      → accepts (op_checksigadd ∷ rest) (a_key k ∷ a_number n ∷ no_signature ∷ stack)
        ≡ accepts rest (a_number n ∷ stack)
  pub checksigadd_short :
      (k : Key) (n : ℕ) (rest : List (Instruction Key))
      → accepts (op_checksigadd ∷ rest) (a_key k ∷ a_number n ∷ []) ≡ false
  pub numbers_equal :
      (m n : ℕ) → accepts (op_numequal ∷ []) (a_number m ∷ a_number n ∷ []) ≡ (m == n)

module _ {Key Signature : Type 0} (i : Interpreter Key Signature) where
  -- The stack that a witness becomes: its last element is on top.
  abbrev pub on_stack : List Signature → List (Element Key Signature) → List (Element Key Signature)
  on_stack [] stack = stack
  on_stack (s ∷ rest) stack = on_stack rest (a_signature s ∷ stack)

  -- The stack of `main` has no element for the third key.
  refused :
      (pk1 pk2 pk3 : Key) (sig1 sig2 : Signature)
      → i.accepts (tapscript pk1 pk2 pk3) (a_signature sig2 ∷ a_signature sig1 ∷ []) ≡ false
  unfolding tapscript
  refused pk1 pk2 pk3 sig1 sig2 = i.key_pushed pk1 _ _ ∙ (elim (Bool-cases (i.is_valid pk1 sig2)) [
    | inr bad ↦ i.checksig_invalid pk1 sig2 _ _ bad
    | inl good ↦
        i.checksig_valid pk1 sig2 _ _ good
        ∙ i.key_pushed pk2 _ _
        ∙ (elim (Bool-cases (i.is_valid pk2 sig1)) [
          | inr bad ↦ i.checksigadd_invalid pk2 1 sig1 _ _ bad
          | inl good' ↦
              i.checksigadd_valid pk2 1 sig1 _ _ good'
              ∙ i.key_pushed pk3 _ _
              ∙ i.checksigadd_short pk3 2 _
        ])
  ])

  -- Where each signature is valid for its key, the witness that `main` builds is refused. With an empty
  -- signature for the third key below them and the two signatures in the other order, the script
  -- accepts them.
  pub accepts-signatures :
      (pk1 pk2 pk3 : Key) (sig1 sig2 : Signature)
      → i.is_valid pk1 sig1 ≡ true
      → i.is_valid pk2 sig2 ≡ true
      → (i.accepts (tapscript pk1 pk2 pk3) (on_stack (signatures sig1 sig2) []) ≡ false)
        × (i.accepts (tapscript pk1 pk2 pk3) (on_stack (signatures sig2 sig1) (no_signature ∷ []))
            ≡ true)
  unfolding tapscript signatures
  accepts-signatures pk1 pk2 pk3 sig1 sig2 v1 v2 = (
    refused pk1 pk2 pk3 sig1 sig2,
    i.key_pushed pk1 _ _
        ∙ i.checksig_valid pk1 sig1 _ _ v1
        ∙ i.key_pushed pk2 _ _
        ∙ i.checksigadd_valid pk2 1 sig2 _ _ v2
        ∙ i.key_pushed pk3 _ _
        ∙ i.checksigadd_empty pk3 2 _ _
        ∙ i.number_pushed 2 _ _
        ∙ i.numbers_equal 2 2,
  )
