-- ===== src/DiskSync/Rename.antt =====
-- `Rename` of rename_unix.go, rename_windows.go and rename_plan9.go.
pub mod Moves
use btcwallet.Prelude.{ℕ, zero, suc, ◌==◌, if◌then◌else◌}
use btcwallet.DiskSync.Os.{
  FilePath, Os, Io, Outcome, ◌>>◌, continue_with, done, failed, os_error, invalid, found, not_exist,
  unreadable, unix, windows, plan9,
}

abbrev pub movefile_replace_existing : ℕ
movefile_replace_existing = 1

module _ (os : Os) where
  -- `moveFileEx`, where the call has given its result and its error number.
  unfoldable pub move_result : ℕ × ℕ × os.Disk → Outcome (Unit {0}) × os.Disk
  move_result (zero, e, d) = if e == 0 then (failed invalid, d) else (failed (os_error e), d)
  move_result (suc r, e, d) = (done tt, d)

  -- `moveFileEx`
  unfoldable pub move_file_ex : os.Utf16 → os.Utf16 → ℕ → Io os.Disk (Unit {0})
  move_file_ex from to flags d = move_result (os.move_file_ex_w from to flags d)

  unfoldable pub rename_unix : FilePath → FilePath → Io os.Disk (Unit {0})
  rename_unix oldpath newpath = os.os_rename oldpath newpath

  unfoldable pub rename_windows : FilePath → FilePath → Io os.Disk (Unit {0})
  rename_windows oldpath newpath d = elim (os.utf16_ptr oldpath) [
    | failed e ↦ (failed e, d)
    | done from ↦ elim (os.utf16_ptr newpath) [
      | failed e ↦ (failed e, d)
      | done to ↦ move_file_ex from to movefile_replace_existing d
    ]
  ]

  -- A file at the new path is removed first.
  unfoldable pub rename_plan9 : FilePath → FilePath → Io os.Disk (Unit {0})
  rename_plan9 oldpath newpath d =
      let move = os.os_rename oldpath (os.base newpath) in
      elim (os.stat newpath d) [
        | found b ↦ (os.remove newpath >> move) d
        | not_exist ↦ move d
        | unreadable e ↦ move d
      ]

  -- `Rename` of the platform.
  unfoldable pub rename : FilePath → FilePath → Io os.Disk (Unit {0})
  rename oldpath newpath = elim os.platform [
    | unix ↦ rename_unix oldpath newpath
    | windows ↦ rename_windows oldpath newpath
    | plan9 ↦ rename_plan9 oldpath newpath
  ]
