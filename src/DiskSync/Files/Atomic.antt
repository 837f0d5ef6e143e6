-- ===== src/DiskSync/Files/Atomic.antt =====
-- A file of an account is replaced as a whole (Account.writeWallet and Account.writeTxStore).
use btcwallet.Prelude.{◌≡◌, ◌≢◌, refl, ap, ◌∙◌, ◌⊎◌, inl, inr, none, some, []}
use btcwallet.DiskSync.Os.{
  FilePath, Bytes, Os, FileSystem, IsLawful, Outcome, done, failed, DiskError, plan9, ◌>>◌, ignore,
  continue_with,
}
use btcwallet.DiskSync.Rename.{rename}
use btcwallet.DiskSync.Rename.Moves.{Outcome-cases, rename-Moves}
use btcwallet.DiskSync.Files.{
  Account, write_file, account_filename, write_wallet, write_tx_store, wallet_bin, tx_bin,
  file_name,
}

module _ (os : Os) (fs : FileSystem os) (l : IsLawful os fs) (supported : os.platform ≢ plan9) where
  -- What a call leaves of the files: the one at `path` is as before or, where the call succeeds,
  -- has the bytes; every other file is as before.
  abbrev pub Replaces : FilePath → Bytes → os.Disk → Outcome (Unit {0}) × os.Disk → Type 0
  Replaces path bs d p =
      ((p.0 ≡ done tt) × (fs.contents p.1 (fs.place path) ≡ some bs)
        ⊎ (e : DiskError) × (p.0 ≡ failed e)
          × (fs.contents p.1 (fs.place path) ≡ fs.contents d (fs.place path)))
      × ((r : fs.Place)
          → r ≢ fs.place path
          → fs.contents d r ≢ none
          → fs.contents p.1 r ≡ fs.contents d r)

  -- The disk after the temporary file `tmp` was made and written to.
  record IsTemporary (path tmp : FilePath) (d d' : os.Disk) : Type 0 where
    apart : fs.place path ≢ fs.place tmp
    absent : fs.contents d (fs.place tmp) ≡ none
    kept : (r : fs.Place) → r ≢ fs.place tmp → fs.contents d' r ≡ fs.contents d r

  -- A file that was there is not the temporary one.
  other_place :
      (path tmp : FilePath) (d d' : os.Disk) (r : fs.Place)
      → IsTemporary path tmp d d'
      → fs.contents d r ≢ none
      → r ≢ fs.place tmp
  other_place path tmp d d' r t some_file same = some_file (ap (fs.contents d) same ∙ t.absent)

  write_failed_lem :
      (path tmp : FilePath) (bs : Bytes) (d d' : os.Disk) (e : DiskError)
      → IsTemporary path tmp d d'
      → Replaces path bs d (failed e, d')
  write_failed_lem path tmp bs d d' e t = (
    inr (e, refl, t.kept (fs.place path) t.apart),
    λ r ne some_file. t.kept r (other_place path tmp d d' r t some_file),
  )

  rename_lem :
      (path tmp : FilePath) (bs : Bytes) (d d' : os.Disk)
      → IsTemporary path tmp d d'
      → fs.contents d' (fs.place tmp) ≡ some bs
      → Replaces path bs d (rename os tmp path d')
  rename_lem path tmp bs d d' t written =
      elim (rename-Moves os fs l tmp path bs d' supported written) [
        | inl (good, (there, others)) ↦ (
          inl (good, there ∙ written),
          λ r ne some_file.
              let apart = other_place path tmp d d' r t some_file in
              others r apart ne ∙ t.kept r apart,
        )
        | inr (e, bad, keeps) ↦ (
          inr (e, bad, keeps (fs.place path) ∙ t.kept (fs.place path) t.apart),
          λ r ne some_file. keeps r ∙ t.kept r (other_place path tmp d d' r t some_file),
        )
      ]

  later :
      (path tmp : FilePath) (d d' d'' : os.Disk)
      → IsTemporary path tmp d d'
      → ((r : fs.Place) → r ≢ fs.place tmp → fs.contents d'' r ≡ fs.contents d' r)
      → IsTemporary path tmp d d''
  later path tmp d d' d'' t k = record {
    apart = t.apart;
    absent = t.absent;
    kept = λ r ne. k r ne ∙ t.kept r ne;
  }

  -- The bytes are written, the file is closed, and it is renamed.
  finish_lem :
      (path tmp : FilePath) (bs : Bytes) (d d' : os.Disk)
      → IsTemporary path tmp d d'
      → fs.contents d' (fs.place tmp) ≡ some []
      → Replaces path bs d (
          continue_with
            (os.write tmp bs d')
            (λ _. ignore (os.sync tmp) >> (ignore (os.close tmp) >> rename os tmp path)))
  finish_lem path tmp bs d d' t fresh =
      let d1 = (os.write tmp bs d').1 in
      let t1 = later path tmp d d' d1 t (l.write_other tmp bs d') in
      elim (Outcome-cases (os.write tmp bs d')) [
        | inl (e, bad) ↦ rw (ap (λ r. r.0) bad) (write_failed_lem path tmp bs d d1 e t1)
        | inr (u, good) ↦
            let d2 = (os.sync tmp d1).1 in
            let d3 = (os.close tmp d2).1 in
            let t3 =
              later path tmp d d1 d3 t1 (λ r ne. l.close_keeps tmp d2 r ∙ l.sync_keeps tmp d1 r) in
            rw (ap (λ r. r.0) good) (
              rename_lem path tmp bs d d3 t3 (
                l.close_keeps tmp d2 (fs.place tmp)
                ∙ l.sync_keeps tmp d1 (fs.place tmp)
                ∙ l.write_done tmp bs d' d1 fresh good))
      ]

  pub write_file_lem :
      (dir name : FilePath) (bs : Bytes) (d : os.Disk)
      → Replaces (os.join dir name) bs d (write_file os (os.join dir name) bs dir d)
  unfolding write_file
  write_file_lem dir name bs d =
      let path = os.join dir name in
      elim (Outcome-cases (os.temp_file dir (os.base path) d)) [
        | inl (e, bad) ↦
            let keeps =
              l.temp_failed dir (os.base path) d (os.temp_file dir (os.base path) d).1 e bad in
            rw (ap (λ r. r.0) bad) (inr (e, refl, keeps (fs.place path)), λ r ne some_file. keeps r)
        | inr (tmp, good) ↦
            let (absent, fresh, apart, kept) =
              l.temp_new dir name d (os.temp_file dir (os.base path) d).1 tmp good in
            rw (ap (λ r. r.0) good) (
              finish_lem path tmp bs d (os.temp_file dir (os.base path) d).1
                (record { apart = apart; absent = absent; kept = kept }) fresh)
      ]

  -- `writeWallet` and `writeTxStore` replace their file by one with all the bytes, or return an
  -- error and leave it as it was, and change no other file. The platform is not Plan 9, and the
  -- file system is lawful: a temporary file is new, writes and renames do to the bytes of files what
  -- their documentation says.
  pub account_files_atomic :
      (a : Account) (dir : FilePath) (d : os.Disk)
      → Replaces (account_filename os wallet_bin a.name dir) a.key_store d (write_wallet os a dir d)
        × Replaces (account_filename os tx_bin a.name dir) a.tx_store d (write_tx_store os a dir d)
  unfolding write_wallet write_tx_store account_filename
  account_files_atomic a dir d = (
    write_file_lem dir (file_name wallet_bin a.name) a.key_store d,
    write_file_lem dir (file_name tx_bin a.name) a.tx_store d,
  )
