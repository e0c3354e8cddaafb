-- ===== src/Wire.antt =====
-- What the node uses of `serde_json` and of libp2p's gossipsub, which are no code of this
-- repository: the text of a message, its reading, and `publish`, which may refuse.
use Prim.Native.Nat.{ℕ}
use Prim.Native.String.{String}
use mathlib.Core.Path.{◌≡◌}
use mathlib.Core.Option.{Option, some}
use mathlib.Core.List.{List}

abbrev pub Bytes : Type 0
Bytes = List ℕ

-- `serde_json::to_vec` and `serde_json::from_slice`, which reads back what `to_vec` wrote.
pub record Json (M : Type 0) : Type 0 where
  pub to_vec : M → Option Bytes
  pub from_slice : Bytes → Option M
  pub from_slice-to_vec : (m : M) (b : Bytes) → to_vec m ≡ some b → from_slice b ≡ some m

-- `swarm.behaviour_mut().gossipsub.publish(topic, bytes)`: the swarm afterwards, or an error.
pub record Gossip : Type 1 where
  pub Swarm : Type 0
  pub publish : Swarm → String → Bytes → Option Swarm
