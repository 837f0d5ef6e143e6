-- ===== src/Account/NotSpent.antt =====
-- txToPairs of createtx.go does not spend what the account has locked.
use mathlib.Core.Path.{subst}
use btcwallet.Prelude.{ℕ, ◌≡◌, ◌≢◌, Option, Bool, true, false, some, List, [], ◌∷◌, arith, All}
use btcwallet.Prelude.Int.{ℤ}
use btcwallet.TxStore.Types.{OutPoint, ShaHash}
use btcwallet.Keystore.Address.{Bytes}
use btcwallet.CreateTx.Pairs.{
  made, Coin, Calls, Settings, CreatedTx, is_eligible, eligible_coins, tx_to_pairs,
}
use btcwallet.CreateTx.Pairs.Signing.{previous_outs}
use btcwallet.CreateTx.Pairs.Start.{filter_eligible-All}
use btcwallet.CreateTx.Pairs.Inputs.{OfCoin, tx_to_pairs_points}
use btcwallet.Account.{Account, LockUnspentCmd, locked_outpoint, lock_unspent}
use btcwallet.Account.Locks.{Spares, IsLocking, after_calls, lock_unspent_stays}

-- A sort keeps what holds of all elements.
abbrev pub KeepsCoins : (List Coin → List Coin) → Type 1
KeepsCoins sort = (Q : Coin → Type 0) (cs : List Coin) → All Q cs → All Q (sort cs)

module _ (calls : Calls) (settings : Settings) (sorting : KeepsCoins calls.sort_reverse)
    (minconf : ℤ) where
  -- An eligible coin is not locked.
  eligible_unlocked :
      (is_locked : OutPoint → Bool) (op : OutPoint) (height : ℤ) (c : Coin)
      → is_locked op ≡ true
      → is_eligible calls.is_pub_key_hash_script is_locked settings.maturity minconf height c ≡ true
      → c.out_point ≢ op
  unfolding is_eligible
  eligible_unlocked is_locked op height c locked ok same =
      let free : is_locked c.out_point ≡ false = ground arith in
      absurd (let clash = subst (λ o. is_locked o ≡ false) same free in cc)

  others_unlocked :
      (is_locked : OutPoint → Bool) (op : OutPoint) (height : ℤ) (cs : List Coin)
      → is_locked op ≡ true
      → All
          (λ c.
            is_eligible calls.is_pub_key_hash_script is_locked settings.maturity minconf height c
            ≡ true)
          cs
      → All (OfCoin (λ o. o ≢ op)) cs
  others_unlocked is_locked op height [] locked h = tt
  others_unlocked is_locked op height (c ∷ cs) locked (ok, h) = (
    eligible_unlocked is_locked op height c locked ok,
    others_unlocked is_locked op height cs locked h,
  )

  eligible_coins_unlocked :
      (is_locked : OutPoint → Bool) (op : OutPoint) (height : ℤ) (coins : List Coin)
      → is_locked op ≡ true
      → All (OfCoin (λ o. o ≢ op)) (eligible_coins calls settings minconf is_locked height coins)
  unfolding eligible_coins
  eligible_coins_unlocked is_locked op height coins locked =
      sorting _ _ (others_unlocked is_locked op height _ locked (filter_eligible-All _ coins))

  -- A transaction that txToPairs makes for an account spends no outpoint that a successful call of
  -- LockUnspent locked, after any later calls that do not unlock it. Package sort adds no coin.
  pub locked_outpoint_not_spent :
      (parse : Bytes → Option ShaHash) (op : OutPoint) (cmd : LockUnspentCmd)
      (cmds : List LockUnspentCmd) (before after : Account calls.Keys) (fuel : ℕ)
      (pairs : List (List ℕ × ℤ)) (block_height : Option ℤ) (unspent : Option (List Coin))
      (keys' : calls.Keys) (c : CreatedTx calls.Address)
      → IsLocking parse op cmd
      → (lock_unspent parse cmd before).0 ≡ true
      → All (Spares parse op) cmds
      → after_calls parse cmds (lock_unspent parse cmd before).1 ≡ after
      → tx_to_pairs calls settings fuel pairs minconf
          (locked_outpoint after)
          block_height
          unspent
          after.key_store
        ≡ some (made c, keys')
      → All (λ o. o ≢ op) (previous_outs c.tx.tx_in)
  locked_outpoint_not_spent parse op cmd cmds before after fuel pairs block_height unspent keys' c
        locks done spares then_after eq =
      let locked =
        subst (λ a. locked_outpoint a op ≡ true) then_after
          (lock_unspent_stays parse op cmd cmds before locks done spares) in
      tx_to_pairs_points (λ o. o ≢ op) calls settings minconf (locked_outpoint after) fuel pairs
        block_height unspent after.key_store keys' c
        (λ height coins. eligible_coins_unlocked (locked_outpoint after) op height coins locked) eq
