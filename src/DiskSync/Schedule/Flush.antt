-- ===== src/DiskSync/Schedule/Flush.antt =====
-- What a flush of the schedule writes, and what stays scheduled.
use btcwallet.Prelude.{
  ◌≡◌, ◌≢◌, sym, ap, ◌∙◌, ◌⊎◌, inl, inr, none, some, [], arith, Bool-cases, Option-cases, ◌==◌,
  ==_iff,
}
use btcwallet.DiskSync.Os.{FilePath, Bytes, Os, FileSystem, IsLawful, Outcome, done, plan9}
use btcwallet.DiskSync.Files.{
  Account, wallet_bin, tx_bin, account_filename, file_name, write_tx_store, write_wallet,
}
use btcwallet.DiskSync.Files.Atomic.{Replaces, account_files_atomic}
use btcwallet.DiskSync.Schedule.{AccountRef, Accounts, SyncSchedule, flush_each, flush}
use btcwallet.DiskSync.Schedule.Loops.{
  IsScheduled, flush_each_keeps, flush_each_writes, tx_writer, wallet_writer, flush_fine,
  flush_failed, flush_empties,
}
use btcwallet.DiskSync.Files.Names.{
  wallet-ne-tx, file_name-injective, wallet-IsPlain, tx-IsPlain, HasNoSeparator, IsPlain,
  IsDirectory,
}

module _ (os : Os) (fs : FileSystem os) (l : IsLawful os fs) (supported : os.platform ≢ plan9) where
  -- A file that has its bytes keeps them while other files, or the same bytes, are written.
  Replaces-keeps :
      (path : FilePath) (p : fs.Place) (bs cs : Bytes) (d : os.Disk)
      (o : Outcome (Unit {0}) × os.Disk)
      → Replaces os fs l supported path bs d o
      → (p ≢ fs.place path) ⊎ ((p ≡ fs.place path) × (cs ≡ bs))
      → fs.contents d p ≡ some cs
      → fs.contents o.1 p ≡ some cs
  Replaces-keeps path p bs cs d o (now, others) (inl ne) h =
      others p ne (λ e. absurd (let clash = sym h ∙ e in cc)) ∙ h
  Replaces-keeps path p bs cs d o (inl (ok, there), others) (inr (same, same_bytes)) h =
      ap (fs.contents o.1) same ∙ there ∙ ap some (sym same_bytes)
  Replaces-keeps path p bs cs d o (inr (e, bad, kept), others) (inr (same, same_bytes)) h =
      ap (fs.contents o.1) same ∙ kept ∙ ap (fs.contents d) (sym same) ∙ h

  Replaces-done :
      (path : FilePath) (bs : Bytes) (d : os.Disk) (o : Outcome (Unit {0}) × os.Disk)
      → Replaces os fs l supported path bs d o
      → o.0 ≡ done tt
      → fs.contents o.1 (fs.place path) ≡ some bs
  Replaces-done path bs d o (inl (ok, there), others) h = there
  Replaces-done path bs d o (inr (e, bad, kept), others) h = absurd (let clash = sym bad ∙ h in cc)

  module _ (get : AccountRef → Account)
      (distinct : (a b : AccountRef) → (get a).name ≡ (get b).name → a ≡ b)
      (plain : (a : AccountRef) → HasNoSeparator (get a).name) where
    abbrev wallet_path : FilePath → AccountRef → FilePath
    wallet_path dir a = account_filename os wallet_bin (get a).name dir

    abbrev tx_path : FilePath → AccountRef → FilePath
    tx_path dir a = account_filename os tx_bin (get a).name dir

    -- The file is on the disk, with the bytes of the account.
    abbrev pub HasWallet : FilePath → AccountRef → os.Disk → Type 0
    HasWallet dir a d = fs.contents d (fs.place (wallet_path dir a)) ≡ some (get a).key_store

    abbrev pub HasTxStore : FilePath → AccountRef → os.Disk → Type 0
    HasTxStore dir a d = fs.contents d (fs.place (tx_path dir a)) ≡ some (get a).tx_store

    -- Two accounts' paths lead to one place only if the accounts are one.
    same_or_apart :
        (suffix dir : FilePath) (bytes : Account → Bytes)
        → IsDirectory os fs dir
        → ((a : AccountRef) → IsPlain (file_name suffix (get a).name))
        → (a b : AccountRef)
        → let path = λ (c : AccountRef). fs.place (account_filename os suffix (get c).name dir) in
          (path a ≢ path b) ⊎ ((path a ≡ path b) × (bytes (get a) ≡ bytes (get b)))
    unfolding account_filename
    same_or_apart suffix dir bytes apart names a b = elim (Bool-cases (a == b)) [
      | inl e ↦
          let same : a ≡ b = (==_iff a b).0 e in
          inr (
            ap (λ c. fs.place (account_filename os suffix (get c).name dir)) same,
            ap (λ c. bytes (get c)) same,
          )
      | inr e ↦ inl (λ path.
          let same = distinct a b (
            file_name-injective suffix (get a).name (get b).name (
              apart (file_name suffix (get a).name) (file_name suffix (get b).name) (names a)
                (names b) path)) in
          ground (arith, ==_iff a b))
    ]

    wallet_apart :
        (dir : FilePath)
        → IsDirectory os fs dir
        → (a b : AccountRef) → fs.place (tx_path dir a) ≢ fs.place (wallet_path dir b)
    unfolding account_filename
    wallet_apart dir apart a b same = wallet-ne-tx (get b).name (get a).name (
        apart (file_name wallet_bin (get b).name) (file_name tx_bin (get a).name)
          (wallet-IsPlain (get b).name (plain b)) (tx-IsPlain (get a).name (plain a)) (sym same))

    wallet_keeps_wallet :
        (dir : FilePath)
        → IsDirectory os fs dir
        → (a b : AccountRef) (d : os.Disk) → HasWallet dir a d
        → HasWallet dir a (write_wallet os (get b) dir d).1
    wallet_keeps_wallet dir apart a b d =
        Replaces-keeps (wallet_path dir b) (fs.place (wallet_path dir a)) (get b).key_store
          (get a).key_store d (write_wallet os (get b) dir d)
          (account_files_atomic os fs l supported (get b) dir d).0
          (same_or_apart wallet_bin dir (λ c. c.key_store) apart
            (λ c. wallet-IsPlain (get c).name (plain c)) a b)

    tx_keeps_tx :
        (dir : FilePath)
        → IsDirectory os fs dir
        → (a b : AccountRef) (d : os.Disk) → HasTxStore dir a d
        → HasTxStore dir a (write_tx_store os (get b) dir d).1
    tx_keeps_tx dir apart a b d =
        Replaces-keeps (tx_path dir b) (fs.place (tx_path dir a)) (get b).tx_store (get a).tx_store
          d (write_tx_store os (get b) dir d)
          (account_files_atomic os fs l supported (get b) dir d).1
          (same_or_apart tx_bin dir (λ c. c.tx_store) apart (λ c. tx-IsPlain (get c).name (plain c))
            a b)

    wallet_keeps_tx :
        (dir : FilePath)
        → IsDirectory os fs dir
        → (a b : AccountRef) (d : os.Disk) → HasTxStore dir a d
        → HasTxStore dir a (write_wallet os (get b) dir d).1
    wallet_keeps_tx dir apart a b d =
        Replaces-keeps (wallet_path dir b) (fs.place (tx_path dir a)) (get b).key_store
          (get a).tx_store d (write_wallet os (get b) dir d)
          (account_files_atomic os fs l supported (get b) dir d).0
          (inl (wallet_apart dir apart a b))

    wallets_flushed :
        (dir : FilePath)
        → IsDirectory os fs dir
        → (a : AccountRef) (m : Accounts) (d : os.Disk) → IsScheduled a m
        → IsScheduled a (flush_each (wallet_writer os get dir) m d).1
          ⊎ HasWallet dir a (flush_each (wallet_writer os get dir) m d).2
    wallets_flushed dir apart a m d =
        flush_each_writes (wallet_writer os get dir) (HasWallet dir)
          (λ b d' written.
            Replaces-done (wallet_path dir b) (get b).key_store d' (wallet_writer os get dir b d')
              (account_files_atomic os fs l supported (get b) dir d').0 written)
          (wallet_keeps_wallet dir apart) a m d

    txs_flushed :
        (dir : FilePath)
        → IsDirectory os fs dir
        → (a : AccountRef) (m : Accounts) (d : os.Disk) → IsScheduled a m
        → IsScheduled a (flush_each (tx_writer os get dir) m d).1
          ⊎ HasTxStore dir a (flush_each (tx_writer os get dir) m d).2
    txs_flushed dir apart a m d =
        flush_each_writes (tx_writer os get dir) (HasTxStore dir)
          (λ b d' written.
            Replaces-done (tx_path dir b) (get b).tx_store d' (tx_writer os get dir b d')
              (account_files_atomic os fs l supported (get b) dir d').1 written)
          (tx_keeps_tx dir apart) a m d

    -- After a flush, whatever it returns, each scheduled file is still scheduled, or it is on the
    -- disk with the bytes of its account; and without an error no file is still scheduled. The
    -- accounts have different names without separators, different names in the directory are of
    -- different files, the platform is not Plan 9, and the file system is lawful.
    pub flush_lem :
        (s : SyncSchedule) (d : os.Disk)
        → IsDirectory os fs s.dir
        → let (e, s', d') = flush os get s d in
          ((a : AccountRef)
            → IsScheduled a s.wallets
            → IsScheduled a s'.wallets ⊎ HasWallet s.dir a d')
          × ((a : AccountRef) → IsScheduled a s.txs → IsScheduled a s'.txs ⊎ HasTxStore s.dir a d')
          × (e ≡ none → (s'.wallets ≡ []) × (s'.txs ≡ []))
    flush_lem s d apart =
        let d1 : os.Disk = (flush_each (tx_writer os get s.dir) s.txs d).2 in
        elim (Option-cases (flush_each (tx_writer os get s.dir) s.txs d).0) [
          | inl fine ↦ rw (flush_fine os get s d fine) (
            λ a h. wallets_flushed s.dir apart a s.wallets d1 h,
            λ a h. elim (txs_flushed s.dir apart a s.txs d h) [
              | inl still ↦ inl still
              | inr there ↦ inr (
                  flush_each_keeps (wallet_writer os get s.dir) (HasTxStore s.dir a)
                    (λ b d'. wallet_keeps_tx s.dir apart a b d') s.wallets d1 there)
            ],
            λ e.
                rw (flush_fine os get s d fine) at
                  (flush_empties os get s d (rw (flush_fine os get s d fine) e)),
          )
          | inr (err, bad) ↦
              rw (flush_failed os get s d err bad)
                (λ a h. inl h, λ a h. txs_flushed s.dir apart a s.txs d h, λ e. absurd (cc))
        ]
