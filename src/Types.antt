-- ===== src/Types.antt =====
-- src/types/mod.rs and the message types of src/dkg/mod.rs, src/signing/mod.rs, src/commands/mod.rs
-- and src/consensus/mod.rs: what the nodes send to one another. A `Vec<u8>` is a list of numbers.
pub mod Codec
pub mod RoundTrip
use mpc_node.Common.{ℕ, String, Bool, List}
use mpc_node.Crypto.{Curve}
use mpc_node.Wire.{Bytes}

pub data ChannelMessage : Type 0 where
  broadcast : String → Bytes → ChannelMessage
  unicast : String → Bytes → ChannelMessage

pub record KeyShare (c : Curve) : Type 0 where
  pub index : ℕ
  pub value : c.Scalar

pub data DkgMessage (c : Curve) : Type 0 where
  share_distribution : String → List (KeyShare c) → List c.G1Affine → DkgMessage c
  share_validation : String → String → Bool → DkgMessage c

pub data DkgStatus : Type 0 where
  new : DkgStatus
  error : String → DkgStatus
  started : DkgStatus
  completed : DkgStatus

pub record FrostCommitment (c : Curve) : Type 0 where
  pub d : c.G1Affine
  pub e : c.G1Affine

pub data SigningMessage (c : Curve) : Type 0 where
  commitment_share : String → List (FrostCommitment c) → SigningMessage c
  signature_share : String → c.Scalar → SigningMessage c

pub data Command : Type 0 where
  share_generation : ℕ → Command
  sign_message : Bytes → Command
  update_state : String → Bytes → Command
  consensus_proposal : ℕ → Bytes → Command

-- A `blake3::Hash` is its 32 bytes.
pub record VrfOutput : Type 0 where
  pub proof : Bytes
  pub hash : Bytes

pub data ConsensusMessage : Type 0 where
  proposal : ℕ → Bytes → VrfOutput → ConsensusMessage
  vote : ℕ → Bytes → String → ConsensusMessage

pub data GossipsubMessage (c : Curve) : Type 0 where
  dkg : DkgMessage c → GossipsubMessage c
  signing : SigningMessage c → GossipsubMessage c
  command : Command → GossipsubMessage c
  consensus : ConsensusMessage → GossipsubMessage c
