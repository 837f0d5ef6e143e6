-- ===== src/DiskSync/Schedule/Loops.antt =====
-- The loops of a flush (syncSchedule.flush of disksync.go): what stays scheduled.
use btcwallet.Prelude.{◌≡◌, refl, ◌⊎◌, inl, inr, none, some, [], ◌∷◌, Option-cases}
use btcwallet.DiskSync.Os.{FilePath, Os, Io, done, DiskError}
use btcwallet.DiskSync.Files.{Account, write_tx_store, write_wallet}
use btcwallet.DiskSync.Rename.Moves.{value_cases}
use btcwallet.DiskSync.Schedule.{AccountRef, Accounts, SyncSchedule, flush_each, flush}

abbrev pub IsScheduled : AccountRef → Accounts → Type 0
IsScheduled a [] = ⊥
IsScheduled a ((b, u) ∷ m) = (a ≡ b) ⊎ IsScheduled a m

module _ {D : Type 0} (write : AccountRef → Io D (Unit {0})) where
  -- What every write keeps, a loop of writes keeps.
  pub flush_each_keeps :
      (P : D → Type 0)
      → ((b : AccountRef) (d : D) → P d → P (write b d).1)
      → (m : Accounts) (d : D) → P d
      → P (flush_each write m d).2
  unfolding flush_each
  flush_each_keeps P keeps [] d h = h
  flush_each_keeps P keeps ((b, u) ∷ m) d h = elim (value_cases (write b d).0) [
    | inl (e, bad) ↦ rw (bad, flush_each) (keeps b d h)
    | inr (v, good) ↦ rw (good, flush_each) (flush_each_keeps P keeps m (write b d).1 (keeps b d h))
  ]

  -- An account stays scheduled, or was written.
  pub flush_each_writes :
      (P : AccountRef → D → Type 0)
      → ((a : AccountRef) (d : D) → (write a d).0 ≡ done tt → P a (write a d).1)
      → ((a b : AccountRef) (d : D) → P a d → P a (write b d).1)
      → (a : AccountRef) (m : Accounts) (d : D) → IsScheduled a m
      → IsScheduled a (flush_each write m d).1 ⊎ P a (flush_each write m d).2
  unfolding flush_each
  flush_each_writes P wrote keeps a [] d h = elim h [ ]
  flush_each_writes P wrote keeps a ((b, u) ∷ m) d (inl same) = elim (value_cases (write b d).0) [
    | inl (e, bad) ↦ rw (bad, flush_each) (inl (inl same))
    | inr (v, good) ↦
        rw (good, flush_each)
          (inr (
            flush_each_keeps (P a) (λ c d'. keeps a c d') m (write b d).1
              (rw same (wrote b d good))))
  ]
  flush_each_writes P wrote keeps a ((b, u) ∷ m) d (inr rest) = elim (value_cases (write b d).0) [
    | inl (e, bad) ↦ rw (bad, flush_each) (inl (inr rest))
    | inr (v, good) ↦ rw (good, flush_each) (flush_each_writes P wrote keeps a m (write b d).1 rest)
  ]

  -- Without an error nothing stays scheduled.
  pub flush_each_empties :
      (m : Accounts) (d : D) → (flush_each write m d).0 ≡ none → (flush_each write m d).1 ≡ []
  unfolding flush_each
  flush_each_empties [] d h = refl
  flush_each_empties ((b, u) ∷ m) d h = elim (value_cases (write b d).0) [
    | inl (e, bad) ↦ absurd (let h' = rw (bad, flush_each) at h in cc)
    | inr (v, good) ↦
        rw (good, flush_each) (flush_each_empties m (write b d).1 (rw (good, flush_each) at h))
  ]

module _ (os : Os) (get : AccountRef → Account) where
  abbrev pub tx_writer : FilePath → AccountRef → Io os.Disk (Unit {0})
  tx_writer dir b = write_tx_store os (get b) dir

  abbrev pub wallet_writer : FilePath → AccountRef → Io os.Disk (Unit {0})
  wallet_writer dir b = write_wallet os (get b) dir

  pub flush_fine :
      (s : SyncSchedule) (d : os.Disk)
      → let (e, txs, d') = flush_each (tx_writer s.dir) s.txs d in
        let (e', wallets, d'') = flush_each (wallet_writer s.dir) s.wallets d' in
        e ≡ none → flush os get s d ≡ (e', record s { txs = txs; wallets = wallets }, d'')
  unfolding flush
  flush_fine s d fine = rw (fine, flush) refl

  pub flush_failed :
      (s : SyncSchedule) (d : os.Disk) (err : DiskError)
      → let (e, txs, d') = flush_each (tx_writer s.dir) s.txs d in
        e ≡ some err → flush os get s d ≡ (some err, record s { txs = txs }, d')
  unfolding flush
  flush_failed s d err bad = rw (bad, flush) refl

  -- Without an error nothing stays scheduled.
  pub flush_empties :
      (s : SyncSchedule) (d : os.Disk)
      → (flush os get s d).0 ≡ none
      → ((flush os get s d).1.wallets ≡ []) × ((flush os get s d).1.txs ≡ [])
  flush_empties s d h = elim (Option-cases (flush_each (tx_writer s.dir) s.txs d).0) [
    | inl fine ↦
        let d1 : os.Disk = (flush_each (tx_writer s.dir) s.txs d).2 in
        rw (flush_fine s d fine) (
          flush_each_empties (wallet_writer s.dir) s.wallets d1 (rw (flush_fine s d fine) at h),
          flush_each_empties (tx_writer s.dir) s.txs d fine,
        )
    | inr (err, bad) ↦ absurd (let clash = rw (flush_failed s d err bad) at h in cc)
  ]
