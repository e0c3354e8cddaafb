-- ===== src/Taproot.antt =====
-- troot/src/main.rs: the tapscript for two of three signatures, the transaction with which the
-- prototype spends it, and its way to the network. Keys, signatures, hashes and the parsing are those
-- of the crate bitcoin.
pub mod Spending
pub mod Posting
use mpc_node.Common.Parse.{codes}
use mpc_node.Common.{
  ℕ, ◌-◌, ◌≡◌, String, Option, none, some, List, [], ◌∷◌, ◌++◌, Io, modify, pure, unwrap, map,
  length, ◌>>=◌,
}

-- What the builder of the script is told, in order.
pub data Instruction (Key : Type 0) : Type 0 where
  push_key : Key → Instruction Key
  push_int : ℕ → Instruction Key
  op_checksig : Instruction Key
  op_checksigadd : Instruction Key
  op_numequal : Instruction Key

module _ {Key : Type 0} where
  unfoldable pub tapscript : Key → Key → Key → List (Instruction Key)
  tapscript pk1 pk2 pk3 =
      push_key pk1
      ∷ op_checksig
      ∷ push_key pk2
      ∷ op_checksigadd
      ∷ push_key pk3
      ∷ op_checksigadd
      ∷ push_int 2
      ∷ op_numequal
      ∷ []

-- The elements of the witness that are pushed before the script and the control block, the first
-- one first.
unfoldable pub signatures : {Signature : Type 0} → Signature → Signature → List Signature
signatures sig1 sig2 = sig1 ∷ sig2 ∷ []

pub record TxOut (Script : Type 0) : Type 0 where
  pub value : ℕ
  pub script_pubkey : Script

-- What the calls of the crate bitcoin in `main` are made of; a key pair that is generated is an argument of
-- `main`. The script signature is the empty script.
pub record Bitcoin : Type 1 where
  pub Keypair : Type 0
  pub Key : Type 0
  pub Signature : Type 0
  pub Script : Type 0
  pub Txid : Type 0
  pub Address : Type 0
  pub TaprootBuilder : Type 0
  pub SpendInfo : Type 0
  pub ControlBlock : Type 0
  pub LeafHash : Type 0
  pub Sighash : Type 0
  pub public_key : Keypair → Key
  pub add_leaf : ℕ → List (Instruction Key) → Option TaprootBuilder
  pub finalize : TaprootBuilder → Key → Option SpendInfo
  pub spend_script_pubkey : SpendInfo → Script
  pub parse_txid : String → Option Txid
  -- A transaction id is written with 64 hexadecimal digits.
  pub parse_txid-length :
      (text : String) (txid : Txid) → parse_txid text ≡ some txid → length (codes text) ≡ 64
  pub parse_address : String → Option Address
  pub address_script_pubkey : Address → Script
  pub empty_script : Script
  pub leaf_hash : List (Instruction Key) → LeafHash
  pub sign_schnorr : Sighash → Keypair → Signature
  pub control_block : SpendInfo → List (Instruction Key) → Option ControlBlock

module _ (b : Bitcoin) where
  -- An element of a witness, by what it is the bytes of.
  pub data WitnessElement : Type 0 where
    signature : b.Signature → WitnessElement
    script : List (Instruction b.Key) → WitnessElement
    control : b.ControlBlock → WitnessElement

  -- The sequence of every input is `ENABLE_RBF_NO_LOCKTIME`.
  pub record TxIn : Type 0 where
    pub previous_output : b.Txid × ℕ
    pub script_sig : b.Script
    pub witness : List WitnessElement

  -- Version 2, and no lock time.
  pub record Transaction : Type 0 where
    pub input : List TxIn
    pub output : List (TxOut b.Script)

  -- What signing and sending need: the hash to sign, of a transaction, its input, the outputs that
  -- are spent and the leaf, and an HTTP client, which may give an error, and counts what it was given.
  pub record Services : Type 1 where
    pub signature_hash : Transaction → ℕ → List (TxOut b.Script) → b.LeafHash → Option b.Sighash
    pub Net : Type 0
    pub post : Net → String → Transaction → Option String × Net
    pub posted : Net → List Transaction
    pub posted-post :
        (n : Net) (url : String) (tx : Transaction) → posted (post n url tx).1 ≡ posted n ++ tx ∷ []

  module _ (x : Services) where
    -- Both answers are printed only.
    unfoldable pub broadcast_tx : Transaction → Io x.Net (Unit {0})
    broadcast_tx tx = modify (λ n. (x.post n "https://blockstream.info/testnet/api/tx" tx).1)

    abbrev pub utxo_value_sat : ℕ
    utxo_value_sat = 10000

    -- The output that is spent.
    abbrev funded : b.Script → TxOut b.Script
    funded script_pubkey = record { value = utxo_value_sat; script_pubkey = script_pubkey }

    -- The transaction before it is signed.
    unfoldable pub unsigned : b.Txid → b.Address → Transaction
    unsigned utxo_txid destination = record {
      input =
          record { previous_output = (utxo_txid, 0); script_sig = b.empty_script; witness = [] }
          ∷ [];
      output =
          record {
            value = utxo_value_sat - 500;
            script_pubkey = b.address_script_pubkey destination;
          }
          ∷ [];
    }

    -- `tx.input[0].witness.push(..)`, which panics where there is no input.
    push_first : WitnessElement → List TxIn → Option (List TxIn)
    push_first element [] = none
    push_first element (first ∷ rest) =
        some (record first { witness = first.witness ++ element ∷ [] } ∷ rest)

    unfoldable pub push_witness : List WitnessElement → Transaction → Io x.Net Transaction
    unfolding push_first
    push_witness [] tx = pure tx
    push_witness (element ∷ rest) tx = do
      input ← unwrap (push_first element tx.input)
      push_witness rest (record tx { input = input })

    -- `main`, which has drawn the three key pairs.
    unfoldable pub main : b.Keypair → b.Keypair → b.Keypair → Io x.Net (Unit {0})
    unfolding unsigned push_witness broadcast_tx
    main sk1 sk2 sk3 = do
      let leaf = tapscript (b.public_key sk1) (b.public_key sk2) (b.public_key sk3)
      builder ← unwrap (b.add_leaf 0 leaf)
      spend_info ← unwrap (b.finalize builder (b.public_key sk1))
      utxo_txid ← unwrap (b.parse_txid "REPLACE_WITH_FUNDED_TXID")
      destination ← unwrap (b.parse_address "REPLACE_WITH_YOUR_TESTNET_ADDRESS")
      let tx = unsigned utxo_txid destination
      let prevout = funded (b.spend_script_pubkey spend_info)
      sighash ← unwrap (x.signature_hash tx 0 (prevout ∷ []) (b.leaf_hash leaf))
      let sig1 = b.sign_schnorr sighash sk1
      let sig2 = b.sign_schnorr sighash sk2
      control_block ← unwrap (b.control_block spend_info leaf)
      spending ←
          push_witness
            (map signature (signatures sig1 sig2) ++ (script leaf ∷ control control_block ∷ [])) tx
      broadcast_tx spending
