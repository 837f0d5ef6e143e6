-- ===== src/DiskSync/Schedule.antt =====
-- The files that are to be written (syncSchedule of disksync.go). An account is its pointer; `get`
-- gives what a pointer points to.
pub mod Loops
pub mod Flush
use btcwallet.Prelude.{ℕ, Option, none, some, List, [], ◌∷◌}
use btcwallet.Prelude.Map.{Map, nat_eq, lookup, insert, erase}
use btcwallet.DiskSync.Os.{FilePath, Os, Io, Outcome, done, failed, ◌>>=◌, ◌>>◌, DiskError}
use btcwallet.DiskSync.Files.{Account, write_tx_store, write_wallet}

-- A *Account
abbrev pub AccountRef : Type 0
AccountRef = ℕ

-- A map[*Account]struct{}
abbrev pub Accounts : Type 0
Accounts = Map AccountRef (Unit {0})

pub record SyncSchedule : Type 0 where
  pub dir : FilePath
  pub wallets : Accounts
  pub txs : Accounts

-- `newSyncSchedule`
unfoldable pub new_sync_schedule : FilePath → SyncSchedule
new_sync_schedule dir = record { dir = dir; wallets = []; txs = [] }

-- What is left of a schedule with the disk, and the error of a call.
abbrev pub Flushed : Type 0 → Type 0 → Type 0
Flushed D S = Option DiskError × S × D

module _ {D : Type 0} (write : AccountRef → Io D (Unit {0})) where
  -- A loop of `flush`: an account is deleted when it has been written.
  unfoldable pub flush_each : Accounts → D → Flushed D Accounts
  flush_each [] d = (none, [], d)
  flush_each ((a, u) ∷ rest) d =
      let p = write a d in
      elim p.0 [ done v ↦ flush_each rest p.1 | failed e ↦ (some e, (a, u) ∷ rest, p.1) ]

  -- A branch of `flushAccount`: a scheduled account is written and deleted.
  unfoldable pub flush_one : AccountRef → Accounts → D → Flushed D Accounts
  flush_one a scheduled d = elim (lookup a scheduled) [
    | none ↦ (none, scheduled, d)
    | some u ↦
        let p = write a d in
        elim p.0 [ done v ↦ (none, erase a scheduled, p.1) | failed e ↦ (some e, scheduled, p.1) ]
  ]

module _ (os : Os) (get : AccountRef → Account) where
  -- `syncSchedule.flushAccount`
  unfoldable pub flush_account : AccountRef → SyncSchedule → os.Disk → Flushed os.Disk SyncSchedule
  flush_account a s d =
      let (e, txs, d') = flush_one (λ b. write_tx_store os (get b) s.dir) a s.txs d in
      let (e', wallets, d'') = flush_one (λ b. write_wallet os (get b) s.dir) a s.wallets d' in
      elim e [
        | some err ↦ (some err, record s { txs = txs }, d')
        | none ↦ (e', record s { txs = txs; wallets = wallets }, d'')
      ]

  -- `syncSchedule.flush`
  unfoldable pub flush : SyncSchedule → os.Disk → Flushed os.Disk SyncSchedule
  flush s d =
      let (e, txs, d') = flush_each (λ b. write_tx_store os (get b) s.dir) s.txs d in
      let (e', wallets, d'') = flush_each (λ b. write_wallet os (get b) s.dir) s.wallets d' in
      elim e [
        | some err ↦ (some err, record s { txs = txs }, d')
        | none ↦ (e', record s { txs = txs; wallets = wallets }, d'')
      ]
