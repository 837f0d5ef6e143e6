-- ===== src/DiskSync/Os.antt =====
-- What disksync.go and the rename_*.go files use of the packages os, ioutil, filepath and syscall, and
-- calls that may fail.
use btcwallet.Prelude.{ℕ, suc, Bool, ◌≡◌, ◌≢◌, Option, none, some, List, []}

-- A path or a file's name, and the bytes of a file.
abbrev pub FilePath : Type 0
FilePath = List ℕ

abbrev pub Bytes : Type 0
Bytes = List ℕ

-- An error of the operating system is a number. `invalid` is syscall.EINVAL, and the others are made in
-- checkCreateDir.
pub data DiskError : Type 0 where
  os_error cannot_check : ℕ → DiskError
  cannot_create : DiskError → DiskError
  not_a_directory invalid : DiskError

pub data Outcome {ℓ} (A : Type ℓ) : Type ℓ where
  done : A → Outcome A
  failed : DiskError → Outcome A

abbrev pub Io : Type 0 → Type 0 → Type 0
Io D A = D → Outcome A × D

abbrev pub continue_with : {D A B : Type 0} → Outcome A × D → (A → Io D B) → Outcome B × D
continue_with p f = elim p.0 [ done a ↦ f a p.1 | failed e ↦ (failed e, p.1) ]

infixl 5 ◌>>=◌ ◌>>◌
abbrev pub ◌>>=◌ : {D A B : Type 0} → Io D A → (A → Io D B) → Io D B
◌>>=◌ m f d = continue_with (m d) f

abbrev pub ◌>>◌ : {D A B : Type 0} → Io D A → Io D B → Io D B
m >> k = m >>= λ _. k

abbrev pub pure : {D A : Type 0} → A → Io D A
pure a d = (done a, d)

abbrev pub fail : {D A : Type 0} → DiskError → Io D A
fail e d = (failed e, d)

-- An error that is only logged.
abbrev pub ignore : {D : Type 0} → Io D (Unit {0}) → Io D (Unit {0})
ignore m d = (done tt, (m d).1)

-- `os.Stat`: whether there is a directory or another file, or nothing, or an error.
pub data Stat : Type 0 where
  found : Bool → Stat
  not_exist : Stat
  unreadable : ℕ → Stat

-- The platforms that have a `Rename` of their own.
pub data Platform : Type 0 where
  unix windows plan9 : Platform

-- `base` is the file of `filepath.Split`. `move_file_ex_w` is the system call MoveFileExW with its
-- result and its error number, on the strings that `utf16_ptr` (UTF16PtrFromString) makes.
pub record Os : Type 1 where
  pub Disk : Type 0
  pub Utf16 : Type 0
  pub platform : Platform
  pub join : FilePath → FilePath → FilePath
  pub base : FilePath → FilePath
  pub temp_file : FilePath → FilePath → Io Disk FilePath
  pub write : FilePath → Bytes → Io Disk (Unit {0})
  pub sync : FilePath → Io Disk (Unit {0})
  pub close : FilePath → Io Disk (Unit {0})
  pub remove : FilePath → Io Disk (Unit {0})
  pub remove_all : FilePath → Io Disk (Unit {0})
  pub mkdir_all : FilePath → Io Disk (Unit {0})
  pub os_rename : FilePath → FilePath → Io Disk (Unit {0})
  pub utf16_ptr : FilePath → Outcome Utf16
  pub move_file_ex_w : Utf16 → Utf16 → ℕ → Disk → ℕ × ℕ × Disk
  pub stat : FilePath → Disk → Stat
  pub read_dir_names : FilePath → Io Disk (List FilePath)

-- The files of a disk. A place is a file's name in its directory, and several paths may lead to one
-- place.
pub record FileSystem (os : Os) : Type 1 where
  pub Place : Type 0
  pub place : FilePath → Place
  pub contents : os.Disk → Place → Option Bytes

module _ (os : Os) (fs : FileSystem os) where
  abbrev pub KeepsFiles : os.Disk → os.Disk → Type 0
  KeepsFiles d d' = (r : fs.Place) → fs.contents d' r ≡ fs.contents d r

  -- The file of one path is now at the other, and no other file has changed.
  abbrev pub HasMoved : FilePath → FilePath → os.Disk → os.Disk → Type 0
  HasMoved p q d d' =
      (fs.contents d' (fs.place q) ≡ fs.contents d (fs.place p))
      × ((r : fs.Place) → r ≢ fs.place p → r ≢ fs.place q → fs.contents d' r ≡ fs.contents d r)

  -- What the calls do with the bytes of files. `TempFile` makes a new empty file in the directory, in
  -- a name that it makes longer by a random string. The renames of POSIX and of MoveFileExW replace
  -- a file (flag 1), or fail and leave all files.
  pub record IsLawful : Type 0 where
    pub temp_new :
        (dir name : FilePath) (d d' : os.Disk) (tmp : FilePath)
        → os.temp_file dir (os.base (os.join dir name)) d ≡ (done tmp, d')
        → (fs.contents d (fs.place tmp) ≡ none)
          × (fs.contents d' (fs.place tmp) ≡ some [])
          × (fs.place (os.join dir name) ≢ fs.place tmp)
          × ((r : fs.Place) → r ≢ fs.place tmp → fs.contents d' r ≡ fs.contents d r)
    pub temp_failed :
        (dir prefix : FilePath) (d d' : os.Disk) (e : DiskError)
        → os.temp_file dir prefix d ≡ (failed e, d')
        → KeepsFiles d d'
    pub write_done :
        (p : FilePath) (bs : Bytes) (d d' : os.Disk)
        → fs.contents d (fs.place p) ≡ some []
        → os.write p bs d ≡ (done tt, d')
        → fs.contents d' (fs.place p) ≡ some bs
    pub write_other :
        (p : FilePath) (bs : Bytes) (d : os.Disk) (r : fs.Place)
        → r ≢ fs.place p
        → fs.contents (os.write p bs d).1 r ≡ fs.contents d r
    pub sync_keeps : (p : FilePath) (d : os.Disk) → KeepsFiles d (os.sync p d).1
    pub close_keeps : (p : FilePath) (d : os.Disk) → KeepsFiles d (os.close p d).1
    pub rename_done :
        (p q : FilePath) (bs : Bytes) (d d' : os.Disk)
        → os.platform ≡ unix
        → fs.contents d (fs.place p) ≡ some bs
        → os.os_rename p q d ≡ (done tt, d')
        → HasMoved p q d d'
    pub rename_failed :
        (p q : FilePath) (d d' : os.Disk) (e : DiskError)
        → os.platform ≡ unix
        → os.os_rename p q d ≡ (failed e, d')
        → KeepsFiles d d'
    pub move_done :
        (p q : FilePath) (u v : os.Utf16) (bs : Bytes) (d d' : os.Disk) (r e : ℕ)
        → fs.contents d (fs.place p) ≡ some bs
        → os.utf16_ptr p ≡ done u
        → os.utf16_ptr q ≡ done v
        → os.move_file_ex_w u v 1 d ≡ (suc r, e, d')
        → HasMoved p q d d'
    pub move_failed :
        (p q : FilePath) (u v : os.Utf16) (d d' : os.Disk) (e : ℕ)
        → os.utf16_ptr p ≡ done u
        → os.utf16_ptr q ≡ done v
        → os.move_file_ex_w u v 1 d ≡ (0, e, d')
        → KeepsFiles d d'
