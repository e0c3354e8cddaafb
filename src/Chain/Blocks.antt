-- ===== src/Chain/Blocks.antt =====
-- The latest block that the client of src/chain/mod.rs keeps, over any calls.
use mathlib.Core.Path.{subst}
use mpc_node.Common.{
  ℕ, ◌≡◌, ◌≢◌, refl, sym, ap, ◌∙◌, Option, blocked, none, some, List, [], ◌∷◌, Option-cases, inl,
  inr, arith,
}
use mpc_node.Common.RwLock.{unlocked, lock_write, drop_write}
use mpc_node.Wire.{Bytes}
use mpc_node.Chain.{Ethers, Transaction, BlockchainClient, sync_blocks, send_transaction}

module _ (x : Ethers) where
  -- A call of the client, whose error, if it has one, the caller takes note of.
  pub data Call : Type 0 where
    sync : Call
    send : x.Address → Bytes → Call

  unfoldable pub after_call : Call → BlockchainClient x → BlockchainClient x
  after_call sync client = (sync_blocks x client).1
  after_call (send to payload) client = (send_transaction x to payload client).1

  unfoldable pub after_calls : List Call → BlockchainClient x → BlockchainClient x
  after_calls [] client = client
  after_calls (call ∷ calls) client = after_calls calls (after_call call client)

  -- What the provider answers over the calls, each time that it is asked for the number.
  unfoldable pub answers : List Call → x.Wallet → x.Provider → List (Option ℕ)
  answers [] wallet provider = []
  answers (sync ∷ calls) wallet provider =
      (x.get_block_number provider).0 ∷ answers calls wallet (x.get_block_number provider).1
  answers (send to payload ∷ calls) wallet provider =
      answers calls wallet
        (x.send_transaction provider
          (record { to = to; payload = payload; from = x.address wallet })).1

  -- The last answer that is a number, or the number before them.
  unfoldable pub last_number : ℕ → List (Option ℕ) → ℕ
  last_number number [] = number
  last_number number (none ∷ later) = last_number number later
  last_number number (some current ∷ later) = last_number current later

  -- None of the calls waits for the lock.
  abbrev pub NeverWaits : List Call → BlockchainClient x → Type 0
  NeverWaits [] client = Unit {0}
  NeverWaits (sync ∷ calls) client =
      ((sync_blocks x client).0 ≢ blocked) × NeverWaits calls (after_call sync client)
  NeverWaits (send to payload ∷ calls) client =
      ((send_transaction x to payload client).0 ≢ blocked)
      × NeverWaits calls (after_call (send to payload) client)

  -- A client whose lock is free.
  abbrev pub keeping : x.Wallet → x.Provider → ℕ → BlockchainClient x
  keeping wallet provider number = record {
    provider = provider;
    wallet = wallet;
    latest_block = unlocked number;
  }

  after_sync :
      (wallet : x.Wallet) (provider : x.Provider) (number : ℕ)
      → (after_call sync (keeping wallet provider number)
          ≡ keeping wallet
              (x.get_block_number provider).1
              (last_number number ((x.get_block_number provider).0 ∷ [])))
        × ((sync_blocks x (keeping wallet provider number)).0 ≢ blocked)
  unfolding after_call last_number sync_blocks lock_write drop_write
  after_sync wallet provider number = elim (Option-cases (x.get_block_number provider).0) [
    | inl e ↦ (ground (arith, e), λ h. ground (arith, e, h))
    | inr (current, e) ↦ (ground (arith, e), λ h. ground (arith, e, h))
  ]

  after_send :
      (to : x.Address) (payload : Bytes) (wallet : x.Wallet) (provider : x.Provider) (number : ℕ)
      → (after_call (send to payload) (keeping wallet provider number)
          ≡ keeping wallet
              (x.send_transaction provider
                (record { to = to; payload = payload; from = x.address wallet })).1
              number)
        × ((send_transaction x to payload (keeping wallet provider number)).0 ≢ blocked)
  unfolding after_call send_transaction
  after_send to payload wallet provider number =
      let tx : Transaction x.Address = record {
        to = to;
        payload = payload;
        from = x.address wallet;
      } in
      elim (Option-cases (x.send_transaction provider tx).0) [
        | inl e ↦ (ground (arith, e), λ h. ground (arith, e, h))
        | inr (hash, e) ↦ (ground (arith, e), λ h. ground (arith, e, h))
      ]

  last_number-cons :
      (number : ℕ) (answer : Option ℕ) (later : List (Option ℕ))
      → last_number (last_number number (answer ∷ [])) later ≡ last_number number (answer ∷ later)
  unfolding last_number
  last_number-cons number none later = refl
  last_number-cons number (some current) later = refl

  -- From a client whose lock is free, with any number under it: calls in any order, of which any
  -- may fail, never wait for the lock, and leave it free, and under it the last number that the
  -- provider has answered, or the number of before where it has answered none.
  pub after_calls-latest :
      (calls : List Call) (wallet : x.Wallet) (provider : x.Provider) (number : ℕ)
      → ((after_calls calls (keeping wallet provider number)).latest_block
          ≡ unlocked (last_number number (answers calls wallet provider)))
        × NeverWaits calls (keeping wallet provider number)
  unfolding after_calls answers last_number
  after_calls-latest [] wallet provider number = (refl, tt)
  after_calls-latest (sync ∷ calls) wallet provider number =
      let (e, runs) = after_sync wallet provider number in
      let (kept, never) =
        after_calls-latest calls wallet (x.get_block_number provider).1
          (last_number number ((x.get_block_number provider).0 ∷ [])) in
      (
        ap (λ k. (after_calls calls k).latest_block) e
            ∙ kept
            ∙ ap unlocked (
                last_number-cons number (x.get_block_number provider).0
                  (answers calls wallet (x.get_block_number provider).1)),
        (runs, subst (NeverWaits calls) (sym e) never),
      )
  after_calls-latest (send to payload ∷ calls) wallet provider number =
      let (e, runs) = after_send to payload wallet provider number in
      let (kept, never) =
        after_calls-latest calls wallet
          (x.send_transaction provider
            (record { to = to; payload = payload; from = x.address wallet })).1
          number in
      (
        ap (λ k. (after_calls calls k).latest_block) e ∙ kept,
        (runs, subst (NeverWaits calls) (sym e) never),
      )
