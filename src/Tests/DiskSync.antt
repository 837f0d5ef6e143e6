-- ===== src/Tests/DiskSync.antt =====
-- The writing of account files on a disk that is a map from paths to bytes.
use mathlib.Core.Path.{subst}
use btcwallet.Prelude.{
  ℕ, zero, suc, ◌+◌, ◌<◌, ◌≡◌, ◌≢◌, refl, sym, ap, ◌∙◌, ◌⊎◌, inl, inr, true, none, some, [], ◌∷◌,
  arith, length, replicate, length-replicate, Option-cases, Bool-cases,
}
use btcwallet.Prelude.Map.{
  Map, lookup, insert, erase, nat_eq, lookup-insert_self, lookup-insert_ne, lookup-erase_ne,
}
use btcwallet.Keystore.Address.{bytes_eq}
use btcwallet.DiskSync.Os.{
  FilePath, Bytes, Os, FileSystem, IsLawful, HasMoved, KeepsFiles, Io, Outcome, done, failed,
  os_error, DiskError, found, unix, plan9,
}
use btcwallet.DiskSync.Files.{
  Account, wallet_bin, tx_bin, account_filename, write_wallet, write_tx_store,
}
use btcwallet.DiskSync.Files.Names.{HasNoSeparator}
use btcwallet.DiskSync.Files.Atomic.{Replaces, account_files_atomic}
use btcwallet.DiskSync.Schedule.{AccountRef, SyncSchedule, flush}
use btcwallet.DiskSync.Schedule.Loops.{IsScheduled}
use btcwallet.DiskSync.Schedule.Flush.{HasWallet, HasTxStore, flush_lem}
use btcwallet.DiskSync.Handler.{
  start, Reach, here, next, scheduled_wallet, fired, granted, handle_sem, handle_timer,
  handle_wallet,
}
use btcwallet.DiskSync.Handler.Armed.{IsArmed, HasFailedFlush, Reach-IsArmed}

abbrev Files : Type 0
Files = Map FilePath Bytes

-- More than the length of each path.
abbrev longest : Files → ℕ
longest [] = 0
longest ((p, bs) ∷ d) = suc (length p + longest d)

abbrev fresh_name : FilePath → Files → FilePath
fresh_name name d = replicate (suc (length name + longest d)) 0

abbrev rename_file : FilePath → FilePath → Io Files (Unit {0})
rename_file p q d = elim (lookup p d) [
  | none ↦ (failed (os_error 2), d)
  | some bs ↦ (done tt, insert q bs (erase p d))
]

abbrev move_file : FilePath → FilePath → Files → ℕ × ℕ × Files
move_file p q d = elim (lookup p d) [ none ↦ (0, 2, d) | some bs ↦ (1, 0, insert q bs (erase p d)) ]

abbrev small_os : Os
small_os = record {
  Disk = Files;
  Utf16 = FilePath;
  platform = unix;
  join = λ dir name. name;
  base = λ p. p;
  temp_file = λ dir name d. (done (fresh_name name d), insert (fresh_name name d) [] d);
  write = λ p bs d. (done tt, insert p bs d);
  sync = λ p d. (done tt, d);
  close = λ p d. (done tt, d);
  remove = λ p d. (done tt, erase p d);
  remove_all = λ p d. (done tt, erase p d);
  mkdir_all = λ p d. (done tt, d);
  os_rename = rename_file;
  utf16_ptr = λ p. done p;
  move_file_ex_w = λ p q flags d. move_file p q d;
  stat = λ p d. found true;
  read_dir_names = λ p d. (done [], d);
}

abbrev files : FileSystem small_os
files = record { Place = FilePath; place = λ p. p; contents = λ d p. lookup p d }

supported : small_os.platform ≢ plan9
supported e = absurd (cc)

lookup-long : (d : Files) (p : FilePath) → longest d < length p → lookup p d ≡ none
unfolding lookup
lookup-long [] p h = refl
lookup-long ((q, bs) ∷ d) p h = elim (Bool-cases (bytes_eq.beq q p)) [
  | inl e ↦
      let same = ap (λ (l : FilePath). length l) ((bytes_eq.beq_iff q p).0 e) in
      absurd (omega arith)
  | inr ne ↦ rw ne (lookup-long d p (omega arith))
]

lookup-fresh_name : (name : FilePath) (d : Files) → lookup (fresh_name name d) d ≡ none
lookup-fresh_name name d =
    lookup-long d (fresh_name name d)
      (omega (arith, length-replicate {0} {A = ℕ} (suc (length name + longest d)) 0))

fresh_name-ne : (name : FilePath) (d : Files) → fresh_name name d ≢ name
fresh_name-ne name d same =
    let lengths = ap (λ (l : FilePath). length l) same in
    absurd (omega (arith, length-replicate {0} {A = ℕ} (suc (length name + longest d)) 0))

done-inj : {A : Type 0} (a b : A) → done a ≡ done b → a ≡ b
done-inj a b h = cc

HasMoved-insert :
    (p q : FilePath) (bs : Bytes) (d : Files)
    → lookup p d ≡ some bs
    → HasMoved small_os files p q d (insert q bs (erase p d))
HasMoved-insert p q bs d there = (
  lookup-insert_self q bs (erase p d) ∙ sym there,
  λ r np nq.
      lookup-insert_ne q r bs (erase p d) (λ e. nq (sym e))
      ∙ lookup-erase_ne p r d (λ e. np (sym e)),
)

rename_done_lem :
    (p q : FilePath) (bs : Bytes) (d d' : Files)
    → lookup p d ≡ some bs
    → rename_file p q d ≡ (done tt, d')
    → HasMoved small_os files p q d d'
rename_done_lem p q bs d d' there eq =
    let moved : insert q bs (erase p d) ≡ d' = ap (λ o. o.1) (rw (there, rename_file) at eq) in
    subst (λ e. HasMoved small_os files p q d e) moved (HasMoved-insert p q bs d there)

rename_failed_lem :
    (p q : FilePath) (d d' : Files) (e : DiskError)
    → rename_file p q d ≡ (failed e, d')
    → KeepsFiles small_os files d d'
rename_failed_lem p q d d' e eq r = elim (Option-cases (lookup p d)) [
  | inl missing ↦
      let same : d ≡ d' = ap (λ o. o.1) (rw (missing, rename_file) at eq) in rw same refl
  | inr (bs, there) ↦ absurd (let clash = ap (λ o. o.0) (rw (there, rename_file) at eq) in cc)
]

move_done_lem :
    (p q u v : FilePath) (bs : Bytes) (d d' : Files) (r e : ℕ)
    → lookup p d ≡ some bs
    → ◌≡◌ {A = Outcome FilePath} (done p) (done u)
    → ◌≡◌ {A = Outcome FilePath} (done q) (done v)
    → move_file u v d ≡ (suc r, e, d')
    → HasMoved small_os files p q d d'
move_done_lem p q u v bs d d' r e there from to eq =
    let sp : u ≡ p = sym (done-inj p u from) in
    let sq : v ≡ q = sym (done-inj q v to) in
    let moved : insert q bs (erase p d) ≡ d' =
      ap (λ o. o.2) (rw (there, move_file) at (rw (sp, sq) at eq)) in
    subst (λ e. HasMoved small_os files p q d e) moved (HasMoved-insert p q bs d there)

move_failed_lem :
    (u v : FilePath) (d d' : Files) (e : ℕ)
    → move_file u v d ≡ (0, e, d')
    → KeepsFiles small_os files d d'
move_failed_lem u v d d' e eq r = elim (Option-cases (lookup u d)) [
  | inl missing ↦ let same : d ≡ d' = ap (λ o. o.2) (rw (missing, move_file) at eq) in rw same refl
  | inr (bs, there) ↦
      absurd (let clash = ap (λ o. o.0) (rw (there, move_file) at eq) in omega (arith, clash))
]

temp_new_lem :
    (name : FilePath) (d d' : Files) (tmp : FilePath)
    → small_os.temp_file [] name d ≡ (done tmp, d')
    → (lookup tmp d ≡ none)
      × (lookup tmp d' ≡ some [])
      × (name ≢ tmp)
      × ((p : FilePath) → p ≢ tmp → lookup p d' ≡ lookup p d)
temp_new_lem name d d' tmp eq =
    let same : fresh_name name d ≡ tmp = done-inj _ _ (ap (λ o. o.0) eq) in
    let disk : insert (fresh_name name d) [] d ≡ d' = ap (λ o. o.1) eq in
    rw (← same, ← disk)
      (
        lookup-fresh_name name d,
        lookup-insert_self (fresh_name name d) [] d,
        (λ e. fresh_name-ne name d (sym e)),
        λ p ne. lookup-insert_ne (fresh_name name d) p [] d (λ e. ne (sym e)),
      )

small_os-IsLawful : IsLawful small_os files
small_os-IsLawful = record {
  temp_new = λ dir name d d' tmp eq. temp_new_lem name d d' tmp eq;
  temp_failed = λ dir name d d' e eq. absurd (let clash = ap (λ o. o.0) eq in cc);
  write_done = λ p bs d d' empty eq. rw (← ap (λ o. o.1) eq) (lookup-insert_self p bs d);
  write_other = λ p bs d q ne. lookup-insert_ne p q bs d (λ e. ne (sym e));
  sync_keeps = λ p d q. refl;
  close_keeps = λ p d q. refl;
  rename_done = λ p q bs d d' on there eq. rename_done_lem p q bs d d' there eq;
  rename_failed = λ p q d d' e on eq. rename_failed_lem p q d d' e eq;
  move_done =
      λ p q u v bs d d' r e there from to eq. move_done_lem p q u v bs d d' r e there from to eq;
  move_failed = λ p q u v d d' e from to eq. move_failed_lem u v d d' e eq;
}

abbrev alice : Account
alice = record { name = b'a' ∷ []; key_store = 1 ∷ 2 ∷ []; tx_store = 3 ∷ [] }

abbrev bob : Account
bob = record { name = []; key_store = 4 ∷ []; tx_store = [] }

abbrev old_files : Files
old_files = (wallet_bin, 9 ∷ []) ∷ []

account_files_atomic_example :
    Replaces small_os files small_os-IsLawful supported
      (account_filename small_os wallet_bin [] [])
      (4 ∷ [])
      old_files
      (write_wallet small_os bob [] old_files)
    × Replaces small_os files small_os-IsLawful supported
        (account_filename small_os tx_bin [] [])
        []
        old_files
        (write_tx_store small_os bob [] old_files)
account_files_atomic_example =
    account_files_atomic small_os files small_os-IsLawful supported bob [] old_files

-- Each pointer but the first has a name of its own length.
abbrev account_at : AccountRef → Account
account_at a = record { name = replicate a b'a'; key_store = a ∷ []; tx_store = a ∷ a ∷ [] }

account_at-distinct : (a b : AccountRef) → (account_at a).name ≡ (account_at b).name → a ≡ b
account_at-distinct a b same =
    sym (length-replicate a b'a') ∙ ap (λ (l : FilePath). length l) same ∙ length-replicate b b'a'

account_at-HasNoSeparator : (a : AccountRef) → HasNoSeparator (account_at a).name
account_at-HasNoSeparator zero = tt
account_at-HasNoSeparator (suc a) = (
  (
    (λ e. absurd (omega (arith, e))),
    (λ e. absurd (omega (arith, e))),
    (λ e. absurd (omega (arith, e))),
  ),
  account_at-HasNoSeparator a,
)

abbrev two_scheduled : SyncSchedule
two_scheduled = record { dir = []; wallets = (1, tt) ∷ (2, tt) ∷ []; txs = (1, tt) ∷ [] }

flush_lem_example :
    let (e, s', d') = flush small_os account_at two_scheduled old_files in
    ((a : AccountRef)
      → IsScheduled a two_scheduled.wallets
      → IsScheduled a s'.wallets
        ⊎ HasWallet small_os files small_os-IsLawful supported account_at account_at-distinct
            account_at-HasNoSeparator [] a d')
    × ((a : AccountRef)
        → IsScheduled a two_scheduled.txs
        → IsScheduled a s'.txs
          ⊎ HasTxStore small_os files small_os-IsLawful supported account_at account_at-distinct
              account_at-HasNoSeparator [] a d')
    × (e ≡ none → (s'.wallets ≡ []) × (s'.txs ≡ []))
flush_lem_example =
    flush_lem small_os files small_os-IsLawful supported account_at account_at-distinct
      account_at-HasNoSeparator two_scheduled old_files (λ m n pm pn same. same)

scheduled_run : Reach small_os [] [] (start small_os [] [] old_files) (
    handle_sem small_os [] [] account_at (
      handle_timer small_os [] []
        (handle_wallet small_os [] [] 1 (start small_os [] [] old_files))))
unfolding handle_wallet handle_timer
scheduled_run = next (next (next here (scheduled_wallet 1)) (fired refl)) (granted refl account_at)

Reach-IsArmed_example :
    IsArmed (
      handle_sem small_os [] [] account_at (
        handle_timer small_os [] []
          (handle_wallet small_os [] [] 1 (start small_os [] [] old_files))))
    ⊎ HasFailedFlush small_os [] [] scheduled_run
Reach-IsArmed_example = Reach-IsArmed small_os [] [] old_files scheduled_run
