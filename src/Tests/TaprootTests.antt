-- ===== src/Tests/TaprootTests.antt =====
-- The theorem on troot/src/main.rs, applied with keys and signatures that are numbers.
use mpc_node.Common.{
  ℕ, suc, ◌≡◌, refl, ap, Bool, true, false, Option, none, some, Bool-cases, inl, inr, List, [], ◌∷◌,
  ◌==◌, if◌then◌else◌, ◌++◌, String, panicked, length, arith,
}
use mpc_node.Taproot.{Instruction, push_key, push_int, op_checksig, op_checksigadd, op_numequal}
use mpc_node.Taproot.{Bitcoin, Services, Transaction, main, tapscript, signatures}
use mpc_node.Taproot.Posting.{main-panics}
use mpc_node.Common.Parse.{codes}
use mpc_node.Taproot.Spending.{
  Element, a_key, a_number, a_signature, no_signature, Interpreter, on_stack, accepts-signatures,
}

-- A run that fails leaves no stack. A signature is valid for the key that is the same number.
abbrev ends_well : List (Element ℕ ℕ) → Bool
ends_well (a_number (suc n) ∷ []) = true
ends_well stack = false

abbrev checked : List (Element ℕ ℕ) → Option (List (Element ℕ ℕ))
checked (a_key k ∷ a_signature s ∷ stack) = if k == s then some (a_number 1 ∷ stack) else none
checked (a_key k ∷ no_signature ∷ stack) = some (a_number 0 ∷ stack)
checked stack = none

abbrev added : List (Element ℕ ℕ) → Option (List (Element ℕ ℕ))
added (a_key k ∷ a_number n ∷ a_signature s ∷ stack) =
    if k == s then some (a_number (suc n) ∷ stack) else none
added (a_key k ∷ a_number n ∷ no_signature ∷ stack) = some (a_number n ∷ stack)
added stack = none

abbrev compared : List (Element ℕ ℕ) → Option (List (Element ℕ ℕ))
compared (a_number m ∷ a_number n ∷ stack) = some (a_number (if m == n then 1 else 0) ∷ stack)
compared stack = none

abbrev after : Instruction ℕ → List (Element ℕ ℕ) → Option (List (Element ℕ ℕ))
after (push_key k) stack = some (a_key k ∷ stack)
after (push_int n) stack = some (a_number n ∷ stack)
after op_checksig stack = checked stack
after op_checksigadd stack = added stack
after op_numequal stack = compared stack

abbrev go_on : (List (Element ℕ ℕ) → Bool) → Option (List (Element ℕ ℕ)) → Bool
go_on rest none = false
go_on rest (some stack) = rest stack

abbrev accept : List (Instruction ℕ) → List (Element ℕ ℕ) → Bool
accept [] stack = ends_well stack
accept (op ∷ rest) stack = go_on (accept rest) (after op stack)

-- What follows a test that has come out.
tested :
    (rest : List (Instruction ℕ)) (stack : List (Element ℕ ℕ)) (b b' : Bool)
    → b ≡ b'
    → go_on (accept rest) (if b then some stack else none)
      ≡ go_on (accept rest) (if b' then some stack else none)
tested rest stack b b' e = ap (λ (b : Bool). go_on (accept rest) (if b then some stack else none)) e

equal_numbers : (m n : ℕ) → accept (op_numequal ∷ []) (a_number m ∷ a_number n ∷ []) ≡ (m == n)
equal_numbers m n = elim (Bool-cases (m == n)) [ inl e ↦ rw e refl | inr e ↦ rw e refl ]

abbrev rules : Interpreter ℕ ℕ
rules = record {
  is_valid = λ k s. k == s;
  accepts = accept;
  key_pushed = λ k rest stack. refl;
  number_pushed = λ n rest stack. refl;
  checksig_invalid = λ k s rest stack e. tested rest (a_number 1 ∷ stack) (k == s) false e;
  checksig_valid = λ k s rest stack e. tested rest (a_number 1 ∷ stack) (k == s) true e;
  checksigadd_invalid =
      λ k n s rest stack e. tested rest (a_number (suc n) ∷ stack) (k == s) false e;
  checksigadd_valid = λ k n s rest stack e. tested rest (a_number (suc n) ∷ stack) (k == s) true e;
  checksigadd_empty = λ k n rest stack. refl;
  checksigadd_short = λ k n rest. refl;
  numbers_equal = equal_numbers;
}

-- A text of 64 characters.
abbrev parse_64 : String → Option String
parse_64 text = if length (codes text) == 64 then some text else none

parse_64-length : (text txid : String) → parse_64 text ≡ some txid → length (codes text) ≡ 64
parse_64-length text txid e = ground (arith, e)

-- Keys, signatures and hashes that are numbers; every text of 64 characters is a transaction id, and
-- every text an address.
abbrev numbers : Bitcoin
numbers = record {
  Keypair = ℕ;
  Key = ℕ;
  Signature = ℕ;
  Script = String;
  Txid = String;
  Address = String;
  TaprootBuilder = Unit {0};
  SpendInfo = ℕ;
  ControlBlock = ℕ;
  LeafHash = Unit {0};
  Sighash = ℕ;
  public_key = λ sk. sk;
  add_leaf = λ depth leaf. some tt;
  finalize = λ builder key. some key;
  spend_script_pubkey = λ info. "spend";
  parse_txid = parse_64;
  parse_txid-length = parse_64-length;
  parse_address = λ text. some text;
  address_script_pubkey = λ address. address;
  empty_script = "";
  leaf_hash = λ leaf. tt;
  sign_schnorr = λ sighash sk. sk;
  control_block = λ info leaf. some info;
}

abbrev services : Services numbers
services = record {
  signature_hash = λ tx index prevouts leaf. some index;
  Net = List (Transaction numbers);
  post = λ n url tx. (none, n ++ tx ∷ []);
  posted = λ n. n;
  posted-post = λ n url tx. refl;
}

panicked_main : main numbers services 1 2 3 [] ≡ (panicked, [])
panicked_main = main-panics numbers services 1 2 3 []

spent_with_three :
    (rules.accepts (tapscript 1 2 3) (on_stack rules (signatures 1 2) []) ≡ false)
    × (rules.accepts (tapscript 1 2 3) (on_stack rules (signatures 2 1) (no_signature ∷ [])) ≡ true)
spent_with_three = accepts-signatures rules 1 2 3 1 2 refl refl
