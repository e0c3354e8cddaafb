-- ===== src/Cluster/Sent.antt =====
-- What an honest node of src/adkg_layer.bkp.rs publishes, and that it stays true as the node stores more.
use mpc_node.Common.{ℕ, ◌≡◌, ◌⊎◌, inl, inr, ◌∙◌, String, true, some, refl, Bool-cases, str_eq}
use mpc_node.Common.HashMap.{HashMap, lookup, insert, lookup-insert}
use mpc_node.Crypto.{Curve}
use mpc_node.Wire.{Json, Gossip, Bytes}
use mpc_node.Adkg.{AdkgMessage, share_ack}
use mpc_node.Adkg.Protocol.{proposal_of}
use mpc_node.Cluster.{Setup}
use mpc_node.Cluster.Dealt.{dealer}

module _ (c : Curve) where
  -- Something is stored under a name.
  abbrev pub HasEntry : String → HashMap c.Scalar → Type 0
  HasEntry name shares = (share : c.Scalar) × (lookup name shares ≡ some share)

  pub insert-HasEntry :
      (name key : String) (share : c.Scalar) (shares : HashMap c.Scalar)
      → HasEntry name shares
      → HasEntry name (insert key share shares)
  insert-HasEntry name key share shares (old, e) = elim (Bool-cases (str_eq key name)) [
    | inl same ↦ (share, lookup-insert key name share shares ∙ (rw same refl))
    | inr other ↦ (old, lookup-insert key name share shares ∙ (rw other e))
  ]

module _ (c : Curve) (g : Gossip) (json : Json (AdkgMessage c)) (setup : Setup c) where
  -- What node `p`, which holds these shares, publishes: its proposal, and acknowledgements in its own
  -- name of shares that it holds.
  abbrev pub IsSent : ℕ → HashMap c.Scalar → AdkgMessage c → Type 0
  IsSent p shares msg =
      (msg ≡ proposal_of c g json setup.n (dealer c setup p))
      ⊎ ((receiver : String) × (msg ≡ share_ack (setup.name p) receiver true)
          × HasEntry c receiver shares)

  abbrev pub IsWritten : ℕ → HashMap c.Scalar → Bytes → Type 0
  IsWritten p shares bytes =
      (msg : AdkgMessage c) × IsSent p shares msg × (json.to_vec msg ≡ some bytes)

  -- Storing another share keeps what has been published true.
  pub insert-IsWritten :
      (p : ℕ) (key : String) (share : c.Scalar) (shares : HashMap c.Scalar) (bytes : Bytes)
      → IsWritten p shares bytes
      → IsWritten p (insert key share shares) bytes
  insert-IsWritten p key share shares bytes (msg, inl dealt, e) = (msg, inl dealt, e)
  insert-IsWritten p key share shares bytes (msg, inr (receiver, ack, has), e) =
      (msg, inr (receiver, ack, insert-HasEntry c receiver key share shares has), e)
