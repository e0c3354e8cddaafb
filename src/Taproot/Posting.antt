-- ===== src/Taproot/Posting.antt =====
-- How `main` of troot/src/main.rs ends.
use mpc_node.Common.{◌≡◌, refl, List, panicked, Outcome, arith, unwrap-ends}
use mpc_node.Taproot.{
  Instruction, Bitcoin, Services, tapscript, push_witness, broadcast_tx, unsigned, main,
}

module _ (b : Bitcoin) (x : Services b) (sk1 sk2 sk3 : b.Keypair) where
  abbrev leaf_of_three : List (Instruction b.Key)
  leaf_of_three = tapscript (b.public_key sk1) (b.public_key sk2) (b.public_key sk3)

  abbrev Panics : x.Net → Outcome (Unit {0}) × x.Net → Type 0
  Panics n end = end ≡ (panicked, n)

  -- Whatever keys are drawn, and whatever the crates answer: `main` panics, and has posted nothing. The
  -- text that it parses as a transaction id does not have the length of one.
  pub main-panics : (n : x.Net) → main b x sk1 sk2 sk3 n ≡ (panicked, n)
  unfolding main unsigned push_witness broadcast_tx
  main-panics n = unwrap-ends (Panics n) (b.add_leaf 0 leaf_of_three) _ n refl (λ builder _.
      unwrap-ends (Panics n) (b.finalize builder (b.public_key sk1)) _ n refl (λ info _.
        unwrap-ends (Panics n) (b.parse_txid "REPLACE_WITH_FUNDED_TXID") _ n refl (λ txid e.
          absurd (omega (arith, b.parse_txid-length "REPLACE_WITH_FUNDED_TXID" txid e)))))
