-- ===== src/DiskSync/Handler.antt =====
-- The handler of the disk syncer (DiskSyncer.handler of disksync.go): a function for each case of
-- its select statement, and a step relation in which a nil channel is never ready.
pub mod Armed
use btcwallet.Prelude.{Bool, true, false, ◌≡◌, Option, none, some, List}
use btcwallet.Prelude.Map.{nat_eq, insert}
use btcwallet.DiskSync.Os.{FilePath, Os, Outcome, done, failed, DiskError}
use btcwallet.DiskSync.Files.{Account, batch_write_accounts, write_all}
use btcwallet.DiskSync.Schedule.{AccountRef, SyncSchedule, new_sync_schedule, flush, flush_account}

-- The variables of `handler` and the disk: the schedule, and whether `timer` and `sem` are not nil.
pub record Syncer (D : Type 0) : Type 0 where
  pub schedule : SyncSchedule
  pub timer : Bool
  pub sem : Bool
  pub disk : D

module _ (os : Os) (tmpnetdir netdir : FilePath) where
  -- The variables at the start of the loop.
  unfoldable pub start : os.Disk → Syncer os.Disk
  start d = record { schedule = new_sync_schedule netdir; timer = false; sem = false; disk = d }

  -- `case <-sem`
  unfoldable pub handle_sem : (AccountRef → Account) → Syncer os.Disk → Syncer os.Disk
  handle_sem get s =
      let (e, schedule, disk) = flush os get s.schedule s.disk in
      record { schedule = schedule; timer = false; sem = false; disk = disk }

  -- `case <-timer`
  unfoldable pub handle_timer : Syncer os.Disk → Syncer os.Disk
  handle_timer s = record s { sem = true }

  -- `case fr := <-ds.flushAccount`
  unfoldable pub handle_flush :
      (AccountRef → Account) → AccountRef → Syncer os.Disk → Syncer os.Disk
  handle_flush get a s =
      let (e, schedule, disk) = flush_account os get a s.schedule s.disk in
      record s { schedule = schedule; disk = disk }

  -- `case a := <-ds.scheduleWallet`; a timer that is nil is made, and another one is kept.
  unfoldable pub handle_wallet : AccountRef → Syncer os.Disk → Syncer os.Disk
  handle_wallet a s = record s {
    schedule = record s.schedule { wallets = insert a tt s.schedule.wallets };
    timer = true;
  }

  -- `case a := <-ds.scheduleTxStore`
  unfoldable pub handle_tx : AccountRef → Syncer os.Disk → Syncer os.Disk
  handle_tx a s = record s {
    schedule = record s.schedule { txs = insert a tt s.schedule.txs };
    timer = true;
  }

  -- `case sr := <-ds.writeBatch`
  unfoldable pub handle_batch : List Account → Syncer os.Disk → Syncer os.Disk
  handle_batch accts s =
      let p = batch_write_accounts os accts tmpnetdir netdir s.disk in
      elim p.0 [
        | done u ↦ record s { schedule = new_sync_schedule netdir; timer = false; disk = p.1 }
        | failed e ↦ record s { disk = p.1 }
      ]

  -- `case er := <-ds.exportAccount`
  unfoldable pub handle_export : Account → FilePath → Syncer os.Disk → Syncer os.Disk
  handle_export a dir s = record s { disk = (write_all os a dir s.disk).1 }

  -- One round of the loop, or a change of the disk by another program. Between two rounds the
  -- accounts may change, so `get` is given at each.
  pub data Step (s : Syncer os.Disk) : Syncer os.Disk → Type 0 where
    granted : s.sem ≡ true → (get : AccountRef → Account) → Step s (handle_sem get s)
    fired : s.timer ≡ true → Step s (handle_timer s)
    flushed : (get : AccountRef → Account) (a : AccountRef) → Step s (handle_flush get a s)
    scheduled_wallet : (a : AccountRef) → Step s (handle_wallet a s)
    scheduled_tx : (a : AccountRef) → Step s (handle_tx a s)
    batched : (accts : List Account) → Step s (handle_batch accts s)
    exported : (a : Account) (dir : FilePath) → Step s (handle_export a dir s)
    outside : (d : os.Disk) → Step s (record s { disk = d })

  pub data Reach (s : Syncer os.Disk) : Syncer os.Disk → Type 0 where
    here : Reach s s
    next : {t u : Syncer os.Disk} → Reach s t → Step t u → Reach s u
