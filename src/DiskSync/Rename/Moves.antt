-- ===== src/DiskSync/Rename/Moves.antt =====
-- `Rename` moves a file as a whole, or fails and leaves all files, but on Plan 9.
use btcwallet.Prelude.{ℕ, zero, suc, ◌≡◌, ◌≢◌, some, refl, ap, ◌⊎◌, inl, inr, Bool-cases, ◌==◌}
use btcwallet.DiskSync.Os.{
  FilePath, Bytes, Os, FileSystem, IsLawful, HasMoved, KeepsFiles, Outcome, done, failed, DiskError,
  Platform, unix, windows, plan9,
}
use btcwallet.DiskSync.Rename.{rename, rename_unix, rename_windows, move_file_ex, move_result}

-- To split on the outcome of a call.
pub Outcome-cases :
    {D A : Type 0} (p : Outcome A × D)
    → ((e : DiskError) × (p ≡ (failed e, p.1))) ⊎ ((a : A) × (p ≡ (done a, p.1)))
Outcome-cases (done a, d) = inr (a, refl)
Outcome-cases (failed e, d) = inl (e, refl)

pub value_cases :
    {A : Type 0} (o : Outcome A) → ((e : DiskError) × (o ≡ failed e)) ⊎ ((a : A) × (o ≡ done a))
value_cases (done a) = inr (a, refl)
value_cases (failed e) = inl (e, refl)

Platform-cases : (p : Platform) → p ≢ plan9 → (p ≡ unix) ⊎ (p ≡ windows)
Platform-cases unix h = inl refl
Platform-cases windows h = inr refl
Platform-cases plan9 h = absurd (h refl)

module _ (os : Os) (fs : FileSystem os) (l : IsLawful os fs) where
  -- The call moves the file, or fails and leaves all files.
  abbrev pub Moves : FilePath → FilePath → os.Disk → Outcome (Unit {0}) × os.Disk → Type 0
  Moves p q d r =
      ((r.0 ≡ done tt) × HasMoved os fs p q d r.1)
      ⊎ ((e : DiskError) × (r.0 ≡ failed e) × KeepsFiles os fs d r.1)

  rename_unix-Moves :
      (p q : FilePath) (bs : Bytes) (d : os.Disk)
      → os.platform ≡ unix
      → fs.contents d (fs.place p) ≡ some bs
      → Moves p q d (rename_unix os p q d)
  unfolding rename_unix
  rename_unix-Moves p q bs d on there = elim (Outcome-cases (os.os_rename p q d)) [
    | inl (e, bad) ↦
        inr (e, ap (λ r. r.0) bad, l.rename_failed p q d (os.os_rename p q d).1 e on bad)
    | inr (u, good) ↦
        inl (ap (λ r. r.0) good, l.rename_done p q bs d (os.os_rename p q d).1 on there good)
  ]

  move_result-Moves :
      (p q : FilePath) (u v : os.Utf16) (bs : Bytes) (d : os.Disk) (r : ℕ × ℕ × os.Disk)
      → fs.contents d (fs.place p) ≡ some bs
      → os.utf16_ptr p ≡ done u
      → os.utf16_ptr q ≡ done v
      → os.move_file_ex_w u v 1 d ≡ r
      → Moves p q d (move_result os r)
  unfolding move_result
  move_result-Moves p q u v bs d (zero, e, d') there from to call = elim (Bool-cases (e == 0)) [
    | inl none_given ↦
        rw (none_given, move_result) (inr (_, refl, l.move_failed p q u v d d' e from to call))
    | inr given ↦ rw (given, move_result) (inr (_, refl, l.move_failed p q u v d d' e from to call))
  ]
  move_result-Moves p q u v bs d (suc r, e, d') there from to call =
      inl (refl, l.move_done p q u v bs d d' r e there from to call)

  rename_windows-Moves :
      (p q : FilePath) (bs : Bytes) (d : os.Disk)
      → fs.contents d (fs.place p) ≡ some bs
      → Moves p q d (rename_windows os p q d)
  unfolding rename_windows move_file_ex
  rename_windows-Moves p q bs d there = elim (value_cases (os.utf16_ptr p)) [
    | inl (e, bad) ↦ rw (bad, rename_windows) (inr (e, refl, λ r. refl))
    | inr (u, from) ↦ elim (value_cases (os.utf16_ptr q)) [
      | inl (e, bad) ↦ rw (from, bad, rename_windows) (inr (e, refl, λ r. refl))
      | inr (v, to) ↦
          rw (from, to, rename_windows)
            (move_result-Moves p q u v bs d (os.move_file_ex_w u v 1 d) there from to refl)
    ]
  ]

  pub rename-Moves :
      (p q : FilePath) (bs : Bytes) (d : os.Disk)
      → os.platform ≢ plan9
      → fs.contents d (fs.place p) ≡ some bs
      → Moves p q d (rename os p q d)
  unfolding rename
  rename-Moves p q bs d supported there = elim (Platform-cases os.platform supported) [
    | inl on ↦ rw (on, rename) (rename_unix-Moves p q bs d on there)
    | inr on ↦ rw (on, rename) (rename_windows-Moves p q bs d there)
  ]
