-- ===== src/DiskSync/Files.antt =====
-- The writing of one account's files, of a directory for them, and of all accounts at once.
pub mod Atomic
pub mod Names
use btcwallet.Prelude.{ℕ, Bool, true, false, Option, none, some, List, [], ◌∷◌, ◌++◌, if◌then◌else◌}
use btcwallet.DiskSync.Os.{
  FilePath, Bytes, Os, Io, ◌>>=◌, ◌>>◌, pure, fail, ignore, continue_with, done, failed, DiskError,
  os_error, cannot_create, cannot_check, not_a_directory, Stat, found, not_exist, unreadable,
}
use btcwallet.DiskSync.Rename.{rename}

-- An account: its name, and what WriteTo of its key store and of its transaction store write.
pub record Account : Type 0 where
  pub name : FilePath
  pub key_store : Bytes
  pub tx_store : Bytes

-- "wallet.bin", "tx.bin" and "-".
abbrev pub wallet_bin : FilePath
wallet_bin = b'w' ∷ b'a' ∷ b'l' ∷ b'l' ∷ b'e' ∷ b't' ∷ b'.' ∷ b'b' ∷ b'i' ∷ b'n' ∷ []

abbrev pub tx_bin : FilePath
tx_bin = b't' ∷ b'x' ∷ b'.' ∷ b'b' ∷ b'i' ∷ b'n' ∷ []

-- `fmt.Sprintf("%v-%v", account, suffix)`, or the suffix alone for the default account.
unfoldable pub file_name : FilePath → FilePath → FilePath
file_name suffix [] = suffix
file_name suffix (c ∷ cs) = (c ∷ cs) ++ (b'-' ∷ suffix)

module _ (os : Os) where
  -- `accountFilename`
  unfoldable pub account_filename : FilePath → FilePath → FilePath → FilePath
  account_filename suffix account netdir = os.join netdir (file_name suffix account)

  -- The body that `writeWallet` and `writeTxStore` share, with the path and the bytes.
  unfoldable pub write_file : FilePath → Bytes → FilePath → Io os.Disk (Unit {0})
  write_file path bytes dir = do
    tmppath ← os.temp_file dir (os.base path)
    os.write tmppath bytes
    ignore (os.sync tmppath)
    ignore (os.close tmppath)
    rename os tmppath path

  -- `Account.writeWallet`
  unfoldable pub write_wallet : Account → FilePath → Io os.Disk (Unit {0})
  write_wallet a dir = write_file (account_filename wallet_bin a.name dir) a.key_store dir

  -- `Account.writeTxStore`
  unfoldable pub write_tx_store : Account → FilePath → Io os.Disk (Unit {0})
  write_tx_store a dir = write_file (account_filename tx_bin a.name dir) a.tx_store dir

  -- `Account.writeAll`
  unfoldable pub write_all : Account → FilePath → Io os.Disk (Unit {0})
  write_all a dir = do write_tx_store a dir; write_wallet a dir

  -- The error of `os.MkdirAll` is wrapped.
  unfoldable pub create_dir : FilePath → Io os.Disk (Unit {0})
  create_dir path d =
      let p = os.mkdir_all path d in
      elim p.0 [ done u ↦ p | failed e ↦ (failed (cannot_create e), p.1) ]

  -- `checkCreateDir`
  unfoldable pub check_create_dir : FilePath → Io os.Disk (Unit {0})
  check_create_dir path d = elim (os.stat path d) [
    | found true ↦ (done tt, d)
    | found false ↦ (failed not_a_directory, d)
    | not_exist ↦ create_dir path d
    | unreadable e ↦ (failed (cannot_check e), d)
  ]

  -- The loop of `freshDir`, over the names that Readdirnames gives.
  unfoldable pub remove_each : List FilePath → Io os.Disk (Unit {0})
  remove_each [] = pure tt
  remove_each (name ∷ names) = os.remove_all name >> remove_each names

  -- `freshDir`
  unfoldable pub fresh_dir : FilePath → Io os.Disk (Unit {0})
  fresh_dir path = do check_create_dir path; names ← os.read_dir_names path; remove_each names

  -- The loop of `batchWriteAccounts`.
  unfoldable pub write_each : List Account → FilePath → Io os.Disk (Unit {0})
  write_each [] tmpdir = pure tt
  write_each (a ∷ accts) tmpdir = write_all a tmpdir >> write_each accts tmpdir

  -- `batchWriteAccounts`
  unfoldable pub batch_write_accounts : List Account → FilePath → FilePath → Io os.Disk (Unit {0})
  batch_write_accounts accts tmpdir netdir = do
    fresh_dir tmpdir
    write_each accts tmpdir
    os.remove_all netdir
    rename os tmpdir netdir
