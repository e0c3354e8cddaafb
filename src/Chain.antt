-- ===== src/Chain.antt =====
-- src/chain/mod.rs: the client of a blockchain. The provider and the wallet of the crate `ethers` are a
-- parameter.
pub mod Blocks
use mpc_node.Common.{ℕ, String, Option, none, some, Outcome, ok, err, blocked, Io}
use mpc_node.Common.RwLock.{RwLock, unlocked, lock_write, drop_write}
use mpc_node.Wire.{Bytes}

pub record Transaction (Address : Type 0) : Type 0 where
  pub to : Address
  pub payload : Bytes
  pub from : Address

-- What the client calls of `ethers`. A provider is as it is at the moment, and moves on
-- with each call.
pub record Ethers : Type 1 where
  pub Provider : Type 0
  pub Wallet : Type 0
  pub Address : Type 0
  pub Hash : Type 0
  pub connect : String → Option Provider
  pub parse_wallet : String → Option Wallet
  pub address : Wallet → Address
  pub get_block_number : Provider → Option ℕ × Provider
  pub send_transaction : Provider → Transaction Address → Option Hash × Provider

module _ (x : Ethers) where
  pub record BlockchainClient : Type 0 where
    pub provider : x.Provider
    pub wallet : x.Wallet
    pub latest_block : RwLock ℕ

  -- `BlockchainClient::new`
  unfoldable pub new : String → String → Outcome BlockchainClient
  new ws_url private_key = elim (x.connect ws_url) [
    | none ↦ err "provider"
    | some provider ↦ elim (x.parse_wallet private_key) [
      | none ↦ err "wallet"
      | some wallet ↦
          ok (record { provider = provider; wallet = wallet; latest_block = unlocked 0 })
    ]
  ]

  -- The write guard lives for one statement.
  unfoldable pub sync_blocks : Io BlockchainClient (Unit {0})
  sync_blocks client =
      let (reply, provider) = x.get_block_number client.provider in
      let asked = record client { provider = provider } in
      elim reply [
        | none ↦ (err "provider", asked)
        | some current_block ↦ elim (lock_write client.latest_block) [
          | none ↦ (blocked, asked)
          | some guard ↦ (
            ok tt,
            record asked { latest_block = drop_write (record guard { value = current_block }) },
          )
        ]
      ]

  unfoldable pub send_transaction : x.Address → Bytes → Io BlockchainClient x.Hash
  send_transaction to payload client =
      let tx : Transaction x.Address = record {
        to = to;
        payload = payload;
        from = x.address client.wallet;
      } in
      let (reply, provider) = x.send_transaction client.provider tx in
      let asked = record client { provider = provider } in
      elim reply [ none ↦ (err "provider", asked) | some tx_hash ↦ (ok tx_hash, asked) ]
