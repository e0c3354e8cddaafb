-- ===== src/Tests/Fixtures.antt =====
-- Concrete values of what the model takes as parameters, and the worlds that the tests start from.
use Prim.Native.String.{String}
use native.Mathlib.Decide.{ℕ_discrete}
use text.Mathlib.Text.{◌==◌}
use mpc_node.Common.{
  ℕ, ◌≡◌, refl, sym, ap, Bool, true, false, Option, none, some, List, [], ◌∷◌, ◌++◌, replicate,
  get_elem?, zero, suc, ◌∙◌, eq_iff, Bool-cases, inl, inr,
}
use mpc_node.Crypto.Small.{small, Residue, Residue-path, residue}
use mpc_node.Wire.{Json, Gossip, Bytes}
use mpc_node.Consensus.{Blake3}
use mpc_node.Network.{Libp2p, Crates}
use mpc_node.Types.Codec.{Encoding}
use mathlib.Core.Logic.{◌↔◌}
use mpc_node.Types.{SigningMessage, GossipsubMessage}
use mpc_node.Adkg.{AdkgMessage}

pub String-discrete : Discrete String
String-discrete s t = elim (Bool-cases (s == t)) [
  | inl e ↦ yes ((eq_iff s t).0 e)
  | inr e ↦ no (λ p. cc ((eq_iff s t).1 p, e))
]

pub Residue-discrete : Discrete Residue
Residue-discrete a b = elim (ℕ_discrete a.0 b.0) [
  | yes e ↦ yes (Residue-path a b e)
  | no ne ↦ no (λ p. ne (ap (λ (r : Residue). r.0) p))
]

pub AdkgMessage-discrete : Discrete (AdkgMessage small)
AdkgMessage-discrete = hlevel (Residue-discrete, String-discrete)

pub GossipsubMessage-discrete : Discrete (GossipsubMessage small)
GossipsubMessage-discrete = hlevel (Residue-discrete, String-discrete, ℕ_discrete)

pub SigningMessage-discrete : Discrete (SigningMessage small)
SigningMessage-discrete = hlevel (Residue-discrete, String-discrete, ℕ_discrete)

-- A codec that writes one message, and refuses every other.
module _ {M : Type 0} (same : Discrete M) (target : M) where
  abbrev pub write_if : {m : M} → Dec (m ≡ target) → Option Bytes
  write_if (yes e) = some []
  write_if (no ne) = none

  read_if : (m : M) (b : Bytes) (d : Dec (m ≡ target)) → write_if d ≡ some b → some target ≡ some m
  read_if m b (yes e) h = ap some (sym e)
  read_if m b (no ne) h = cc

  write_target_lem : (d : Dec (target ≡ target)) → write_if d ≡ some []
  write_target_lem (yes e) = refl
  write_target_lem (no ne) = absurd (ne refl)

  abbrev pub write_target : M → Option Bytes
  write_target m = write_if (same m target)

  pub read_target : (m : M) (b : Bytes) → write_target m ≡ some b → some target ≡ some m
  read_target m b h = read_if m b (same m target) h

  abbrev pub single_json : Json M
  single_json = record {
    to_vec = write_target;
    from_slice = λ b. some target;
    from_slice-to_vec = read_target;
  }

  pub single_json_writes : single_json.to_vec target ≡ some []
  single_json_writes = write_target_lem (same target target)

-- A codec that writes the messages of a list, each as its position.
module _ {M : Type 0} (same : Discrete M) where
  abbrev found_at : {m t : M} → Dec (m ≡ t) → Option ℕ → Option ℕ
  found_at (yes e) later = some 0
  found_at (no ne) none = none
  found_at (no ne) (some k) = some (suc k)

  pub position : M → List M → Option ℕ
  position m [] = none
  position m (t ∷ targets) = found_at (same m t) (position m targets)

  found_here :
      (m t : M) (targets : List M) (k : ℕ) (d : Dec (m ≡ t)) (later : Option ℕ)
      → ((j : ℕ) → later ≡ some j → get_elem? targets j ≡ some m)
      → found_at d later ≡ some k
      → get_elem? (t ∷ targets) k ≡ some m
  found_here m t targets zero (yes e) later ih h = ap some (sym e)
  found_here m t targets (suc k) (yes e) later ih h = cc
  found_here m t targets k (no ne) none ih h = cc
  found_here m t targets zero (no ne) (some j) ih h = cc
  found_here m t targets (suc k) (no ne) (some j) ih h = ih k (cc)

  get_elem?-position :
      (m : M) (targets : List M) (k : ℕ)
      → position m targets ≡ some k
      → get_elem? targets k ≡ some m
  unfolding position
  get_elem?-position m [] k h = cc
  get_elem?-position m (t ∷ targets) k h =
      found_here m t targets k (same m t) (position m targets) (get_elem?-position m targets) h

  found_first : {m t : M} (d : Dec (m ≡ t)) (later : Option ℕ) → m ≡ t → found_at d later ≡ some 0
  found_first (yes e) later h = refl
  found_first (no ne) later h = absurd (ne h)

  found_later :
      {m t : M} (d : Dec (m ≡ t)) (k : ℕ) → (m ≡ t → ⊥) → found_at d (some k) ≡ some (suc k)
  found_later (yes e) k h = absurd (h e)
  found_later (no ne) k h = refl

  pub position-first : (m : M) (targets : List M) → position m (m ∷ targets) ≡ some 0
  unfolding position
  position-first m targets = found_first (same m m) (position m targets) refl

  pub position-later :
      (m t : M) (targets : List M) (k : ℕ)
      → (m ≡ t → ⊥)
      → position m targets ≡ some k
      → position m (t ∷ targets) ≡ some (suc k)
  unfolding position
  position-later m t targets k ne h = ap (found_at (same m t)) h ∙ found_later (same m t) k ne

  abbrev as_byte : Option ℕ → Option Bytes
  as_byte none = none
  as_byte (some k) = some (k ∷ [])

  abbrev pub read_position : List M → Bytes → Option M
  read_position targets [] = none
  read_position targets (k ∷ rest) = get_elem? targets k

  pub read_byte :
      (m : M) (targets : List M) (b : Bytes) (p : Option ℕ)
      → position m targets ≡ p
      → as_byte p ≡ some b
      → read_position targets b ≡ some m
  read_byte m targets b none e h = cc
  read_byte m targets [] (some k) e h = cc
  read_byte m targets (x ∷ b) (some k) e h = get_elem?-position m targets x (e ∙ (cc))

  abbrev pub list_json : List M → Json M
  list_json targets = record {
    to_vec = λ m. as_byte (position m targets);
    from_slice = read_position targets;
    from_slice-to_vec = λ m b h. read_byte m targets b (position m targets) refl h;
  }

  pub list_json_writes :
      (m : M) (targets : List M) (k : ℕ)
      → position m targets ≡ some k
      → (list_json targets).to_vec m ≡ some (k ∷ [])
  list_json_writes m targets k e = ap as_byte e

pub no_bytes :
    {M : Type 0} (m : M) (b : Bytes) → ◌≡◌ {A = Option Bytes} none (some b) → none ≡ some m
no_bytes m b h = cc

-- A codec that refuses everything.
abbrev pub no_json : {M : Type 0} → Json M
no_json = record { to_vec = λ m. none; from_slice = λ b. none; from_slice-to_vec = no_bytes }

-- A swarm that keeps every message which is published.
abbrev pub open_gossip : Gossip
open_gossip = record { Swarm = List Bytes; publish = λ swarm topic b. some (b ∷ swarm) }

-- Codecs of one message.
abbrev pub adkg_json : AdkgMessage small → Json (AdkgMessage small)
adkg_json = single_json AdkgMessage-discrete

abbrev pub gossip_json : GossipsubMessage small → Json (GossipsubMessage small)
gossip_json = single_json GossipsubMessage-discrete

abbrev pub signing_json : SigningMessage small → Json (SigningMessage small)
signing_json = single_json SigningMessage-discrete

-- A source of scalars: 0, 1, 2, …
abbrev pub draws : ℕ → Residue
draws n = residue n

same_bytes : (a b : Bytes) → Dec (a ≡ b)
same_bytes = hlevel ℕ_discrete

is_yes : {a b : Bytes} → Dec (a ≡ b) → Bool
is_yes (yes e) = true
is_yes (no ne) = false

pub bytes_eq : Bytes → Bytes → Bool
bytes_eq a b = is_yes (same_bytes a b)

is_yes_iff : {a b : Bytes} (d : Dec (a ≡ b)) → (is_yes d ≡ true) ↔ (a ≡ b)
unfolding is_yes
is_yes_iff (yes e) = (λ _. e, λ _. refl)
is_yes_iff (no ne) = (λ h. cc h, λ e. absurd (ne e))

pub bytes_eq_iff : (a b : Bytes) → (bytes_eq a b ≡ true) ↔ (a ≡ b)
unfolding bytes_eq
bytes_eq_iff a b = is_yes_iff (same_bytes a b)

-- A hash that is its input.
abbrev pub identity_hash : Blake3
identity_hash = record {
  hash = λ input. input;
  keyed_hash = λ key input. key ++ input;
  hash_eq = bytes_eq;
  hash_eq_iff = bytes_eq_iff;
}

-- A swarm that keeps what is published with its topic, and a hexadecimal reader that reads nothing.
abbrev pub open_swarm : Libp2p small
open_swarm = record {
  Swarm = List (String × Bytes);
  publish = λ swarm topic b. some ((topic, b) ∷ swarm);
  subscribe = λ swarm topic. some swarm;
  send_response = λ swarm response_channel msg. swarm;
  send_request = λ swarm peer msg. swarm;
  hex_decode = λ text. none;
  peer_id_from_bytes = λ b. none;
}

abbrev pub crates : Json (GossipsubMessage small) → Crates small
crates json = record {
  p2p = open_swarm;
  blake3 = identity_hash;
  json = json;
  signing_json = no_json;
}

-- A number as itself and zeros behind it, `n + 1` bytes in all.
abbrev pub decode_first : Bytes → Option ℕ
decode_first [] = none
decode_first (b ∷ rest) = some b

abbrev pub padded : ℕ → Encoding ℕ
padded n = record {
  to_bytes = λ a. a ∷ replicate n 0;
  from_bytes = decode_first;
  from_bytes-to_bytes = λ a. refl;
}
