-- ===== src/DiskSync/Handler/Armed.antt =====
-- What is scheduled will be flushed: the handler waits for its timer or for the semaphore.
use btcwallet.Prelude.{◌≡◌, ◌⊎◌, refl, inl, inr, true, some, List, [], arith, Option-cases}
use btcwallet.Prelude.Map.{nat_eq, lookup}
use btcwallet.DiskSync.Os.{FilePath, Os, DiskError}
use btcwallet.DiskSync.Files.{Account, batch_write_accounts}
use btcwallet.DiskSync.Rename.Moves.{value_cases}
use btcwallet.DiskSync.Schedule.{
  AccountRef, SyncSchedule, new_sync_schedule, flush, flush_account, flush_one,
}
use btcwallet.DiskSync.Schedule.Loops.{flush_empties}
use btcwallet.DiskSync.Handler.{
  Syncer, start, handle_sem, handle_timer, handle_flush, handle_wallet, handle_tx, handle_batch,
  handle_export, Step, granted, fired, flushed, scheduled_wallet, scheduled_tx, batched, exported,
  outside, Reach, here, next,
}

-- Nothing is scheduled, or the handler waits for the timer or for the semaphore.
abbrev pub IsArmed : {D : Type 0} → Syncer D → Type 0
IsArmed s = ((s.schedule.wallets ≡ []) × (s.schedule.txs ≡ [])) ⊎ (s.timer ≡ true) ⊎ (s.sem ≡ true)

module _ (os : Os) (tmpnetdir netdir : FilePath) where
  -- The flush of a round returned an error.
  abbrev pub FailsToFlush : {s t : Syncer os.Disk} → Step os tmpnetdir netdir s t → Type 0
  FailsToFlush {s} (granted ready get) =
      (e : DiskError) × ((flush os get s.schedule s.disk).0 ≡ some e)
  FailsToFlush (fired ready) = ⊥
  FailsToFlush (flushed get a) = ⊥
  FailsToFlush (scheduled_wallet a) = ⊥
  FailsToFlush (scheduled_tx a) = ⊥
  FailsToFlush (batched accts) = ⊥
  FailsToFlush (exported a dir) = ⊥
  FailsToFlush (outside d) = ⊥

  abbrev pub HasFailedFlush : {s t : Syncer os.Disk} → Reach os tmpnetdir netdir s t → Type 0
  HasFailedFlush here = ⊥
  HasFailedFlush (next r st) = HasFailedFlush r ⊎ FailsToFlush st

  handle_sem-IsArmed :
      (get : AccountRef → Account) (s : Syncer os.Disk)
      → IsArmed (handle_sem os tmpnetdir netdir get s)
        ⊎ ((e : DiskError) × ((flush os get s.schedule s.disk).0 ≡ some e))
  unfolding handle_sem
  handle_sem-IsArmed get s = elim (Option-cases (flush os get s.schedule s.disk).0) [
    | inl fine ↦ inl (inl (flush_empties os get s.schedule s.disk fine))
    | inr bad ↦ inr bad
  ]

  flush_account_empty :
      (get : AccountRef → Account) (a : AccountRef) (s : SyncSchedule) (d : os.Disk)
      → (s.wallets ≡ []) × (s.txs ≡ [])
      → ((flush_account os get a s d).1.wallets ≡ []) × ((flush_account os get a s d).1.txs ≡ [])
  unfolding flush_account flush_one lookup
  flush_account_empty get a s d (no_wallets, no_txs) = ground arith

  handle_flush-IsArmed :
      (get : AccountRef → Account) (a : AccountRef) (s : Syncer os.Disk)
      → IsArmed s
      → IsArmed (handle_flush os tmpnetdir netdir get a s)
  unfolding handle_flush
  handle_flush-IsArmed get a s (inl idle) = inl (flush_account_empty get a s.schedule s.disk idle)
  handle_flush-IsArmed get a s (inr waits) = inr waits

  handle_batch-IsArmed :
      (accts : List Account) (s : Syncer os.Disk)
      → IsArmed s
      → IsArmed (handle_batch os tmpnetdir netdir accts s)
  unfolding handle_batch new_sync_schedule
  handle_batch-IsArmed accts s h =
      elim (value_cases (batch_write_accounts os accts tmpnetdir netdir s.disk).0) [
        | inl (e, bad) ↦ rw (bad, handle_batch) h
        | inr (u, good) ↦ rw (good, handle_batch) (inl (refl, refl))
      ]

  Step-IsArmed :
      {s t : Syncer os.Disk} (st : Step os tmpnetdir netdir s t)
      → IsArmed s
      → IsArmed t ⊎ FailsToFlush st
  unfolding handle_timer handle_wallet handle_tx handle_export
  Step-IsArmed {s} (granted ready get) h = handle_sem-IsArmed get s
  Step-IsArmed (fired ready) h = inl (inr (inr refl))
  Step-IsArmed {s} (flushed get a) h = inl (handle_flush-IsArmed get a s h)
  Step-IsArmed (scheduled_wallet a) h = inl (inr (inl refl))
  Step-IsArmed (scheduled_tx a) h = inl (inr (inl refl))
  Step-IsArmed {s} (batched accts) h = inl (handle_batch-IsArmed accts s h)
  Step-IsArmed (exported a dir) h = inl h
  Step-IsArmed (outside d) h = inl h

  -- Whatever the handler has received since its start, it waits for its timer or for the
  -- semaphore if anything is scheduled, or a flush has returned an error before.
  pub Reach-IsArmed :
      (d : os.Disk) {t : Syncer os.Disk}
      (r : Reach os tmpnetdir netdir (start os tmpnetdir netdir d) t)
      → IsArmed t ⊎ HasFailedFlush r
  unfolding start new_sync_schedule
  Reach-IsArmed d here = inl (inl (refl, refl))
  Reach-IsArmed d (next r st) = elim (Reach-IsArmed d r) [
    | inl armed ↦ elim (Step-IsArmed st armed) [
      | inl still ↦ inl still
      | inr failed_now ↦ inr (inr failed_now)
    ]
    | inr failed_before ↦ inr (inl failed_before)
  ]
