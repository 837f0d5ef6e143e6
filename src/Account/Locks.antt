-- ===== src/Account/Locks.antt =====
-- What LockUnspent locks is not spent: the locked outpoints of account.go and txToPairs of
-- createtx.go.
use btcwallet.Prelude.{
  ℕ, zero, suc, ◌≡◌, ◌≢◌, refl, Bool, true, false, Option, some, List, [], ◌∷◌, arith, All,
  get_elem?, inl, inr, Option-cases,
}
use btcwallet.Prelude.Map.{lookup-insert, lookup-erase}
use btcwallet.TxStore.Types.{OutPoint, ShaHash, out_point_eq, eqb_out_point_iff}
use btcwallet.Keystore.Address.{Bytes}
use btcwallet.Account.{
  Account, TransactionInput, LockUnspentCmd, input_outpoint, locked_outpoint, lock_outpoint,
  unlock_outpoint, lock_inputs, lock_transactions, lock_unspent,
}

module _ {K : Type 0} (op : OutPoint) where
  locked_outpoint-lock_outpoint :
      (other : OutPoint) (a : Account K)
      → locked_outpoint a op ≡ true
      → locked_outpoint (lock_outpoint other a) op ≡ true
  unfolding locked_outpoint lock_outpoint
  locked_outpoint-lock_outpoint other a h = ground (arith, lookup-insert other op tt a.locked)

  locked_outpoint-lock_outpoint_self :
      (a : Account K) → locked_outpoint (lock_outpoint op a) op ≡ true
  unfolding locked_outpoint lock_outpoint
  locked_outpoint-lock_outpoint_self a =
      ground (arith, lookup-insert op op tt a.locked, eqb_out_point_iff op op)

  locked_outpoint-unlock_outpoint :
      (other : OutPoint) (a : Account K)
      → other ≢ op
      → locked_outpoint a op ≡ true
      → locked_outpoint (unlock_outpoint other a) op ≡ true
  unfolding locked_outpoint unlock_outpoint
  locked_outpoint-unlock_outpoint other a ne h =
      ground (arith, lookup-erase other op a.locked, eqb_out_point_iff other op)

-- A call that does not unlock the outpoint.
abbrev pub Spares : (Bytes → Option ShaHash) → OutPoint → LockUnspentCmd → Type 0
Spares parse op cmd =
    cmd.unlock ≡ true
    → (cmd.transactions ≢ []) × All (λ t. input_outpoint parse t ≢ some op) cmd.transactions

-- A call that locks the outpoint.
pub record IsLocking (parse : Bytes → Option ShaHash) (op : OutPoint) (cmd : LockUnspentCmd)
    : Type 0 where
  pub locks : cmd.unlock ≡ false
  pub place : ℕ
  pub input : TransactionInput
  pub stands : get_elem? cmd.transactions place ≡ some input
  pub names : input_outpoint parse input ≡ some op

module _ {K : Type 0} (parse : Bytes → Option ShaHash) where
  -- The account after a sequence of calls, whatever they return.
  abbrev pub after_calls : List LockUnspentCmd → Account K → Account K
  after_calls [] a = a
  after_calls (cmd ∷ cmds) a = after_calls cmds (lock_unspent parse cmd a).1

module _ {K : Type 0} (parse : Bytes → Option ShaHash) (op : OutPoint) where
  lock_inputs-locked :
      (unlock : Bool) (ts : List TransactionInput) (a : Account K)
      → (unlock ≡ true → All (λ t. input_outpoint parse t ≢ some op) ts)
      → locked_outpoint a op ≡ true
      → locked_outpoint (lock_inputs parse unlock ts a).1 op ≡ true
  unfolding lock_inputs
  lock_inputs-locked unlock [] a spares h = h
  lock_inputs-locked false (t ∷ ts) a spares h = elim (Option-cases (input_outpoint parse t)) [
    | inl bad ↦ rw (bad, lock_inputs) h
    | inr (other, good) ↦
        rw (good, lock_inputs)
          (lock_inputs-locked false ts (lock_outpoint other a) (λ e. absurd (cc))
            (locked_outpoint-lock_outpoint op other a h))
  ]
  lock_inputs-locked true (t ∷ ts) a spares h = elim (Option-cases (input_outpoint parse t)) [
    | inl bad ↦ rw (bad, lock_inputs) h
    | inr (other, good) ↦
        let spared = spares refl in
        rw (good, lock_inputs)
          (lock_inputs-locked true ts (unlock_outpoint other a) (λ e. spared.1)
            (locked_outpoint-unlock_outpoint op other a (λ e. spared.0 (cc)) h))
  ]

  lock_inputs_locks :
      (ts : List TransactionInput) (i : ℕ) (t : TransactionInput) (a : Account K)
      → get_elem? ts i ≡ some t
      → input_outpoint parse t ≡ some op
      → (lock_inputs parse false ts a).0 ≡ true
      → locked_outpoint (lock_inputs parse false ts a).1 op ≡ true
  unfolding lock_inputs
  lock_inputs_locks [] i t a at_i names done = absurd (cc)
  lock_inputs_locks (u ∷ ts) zero t a at_i names done =
      let same : input_outpoint parse u ≡ some op = cc in
      rw (same, lock_inputs)
        (lock_inputs-locked false ts (lock_outpoint op a) (λ e. absurd (cc))
          (locked_outpoint-lock_outpoint_self op a))
  lock_inputs_locks (u ∷ ts) (suc i) t a at_i names done =
      elim (Option-cases (input_outpoint parse u)) [
        | inl bad ↦ absurd (let stopped = rw (bad, lock_inputs) at done in cc)
        | inr (other, good) ↦
            rw (good, lock_inputs)
              (lock_inputs_locks ts i t (lock_outpoint other a) at_i names
                (rw (good, lock_inputs) at done))
      ]

  lock_transactions-locked :
      (unlock : Bool) (ts : List TransactionInput) (a : Account K)
      → (unlock ≡ true → (ts ≢ []) × All (λ t. input_outpoint parse t ≢ some op) ts)
      → locked_outpoint a op ≡ true
      → locked_outpoint (lock_transactions parse unlock ts a).1 op ≡ true
  unfolding lock_transactions
  lock_transactions-locked true [] a spares h = absurd ((spares refl).0 refl)
  lock_transactions-locked false [] a spares h = lock_inputs-locked false [] a (λ e. absurd (cc)) h
  lock_transactions-locked true (t ∷ ts) a spares h =
      lock_inputs-locked true (t ∷ ts) a (λ e. (spares e).1) h
  lock_transactions-locked false (t ∷ ts) a spares h =
      lock_inputs-locked false (t ∷ ts) a (λ e. absurd (cc)) h

  lock_transactions_locks :
      (unlock : Bool) (ts : List TransactionInput) (i : ℕ) (t : TransactionInput) (a : Account K)
      → unlock ≡ false
      → get_elem? ts i ≡ some t
      → input_outpoint parse t ≡ some op
      → (lock_transactions parse unlock ts a).0 ≡ true
      → locked_outpoint (lock_transactions parse unlock ts a).1 op ≡ true
  unfolding lock_transactions
  lock_transactions_locks true ts i t a locks at_i names done = absurd (cc)
  lock_transactions_locks false [] i t a locks at_i names done = absurd (cc)
  lock_transactions_locks false (u ∷ ts) i t a locks at_i names done =
      lock_inputs_locks (u ∷ ts) i t a at_i names done

  lock_unspent-locked :
      (cmd : LockUnspentCmd) (a : Account K)
      → Spares parse op cmd
      → locked_outpoint a op ≡ true
      → locked_outpoint (lock_unspent parse cmd a).1 op ≡ true
  unfolding lock_unspent
  lock_unspent-locked cmd a spares h =
      lock_transactions-locked cmd.unlock cmd.transactions a spares h

  lock_unspent_locks :
      (cmd : LockUnspentCmd) (a : Account K)
      → IsLocking parse op cmd
      → (lock_unspent parse cmd a).0 ≡ true
      → locked_outpoint (lock_unspent parse cmd a).1 op ≡ true
  unfolding lock_unspent
  lock_unspent_locks cmd a l done =
      lock_transactions_locks cmd.unlock cmd.transactions l.place l.input a l.locks l.stands l.names
        done

  after_calls-locked :
      (cmds : List LockUnspentCmd) (a : Account K)
      → All (Spares parse op) cmds
      → locked_outpoint a op ≡ true
      → locked_outpoint (after_calls parse cmds a) op ≡ true
  after_calls-locked [] a spares h = h
  after_calls-locked (cmd ∷ cmds) a spares h =
      after_calls-locked cmds (lock_unspent parse cmd a).1 spares.1
        (lock_unspent-locked cmd a spares.0 h)

  -- An outpoint that a call locked is locked after any calls that do not unlock it.
  pub lock_unspent_stays :
      (cmd : LockUnspentCmd) (cmds : List LockUnspentCmd) (a : Account K)
      → IsLocking parse op cmd
      → (lock_unspent parse cmd a).0 ≡ true
      → All (Spares parse op) cmds
      → locked_outpoint (after_calls parse cmds (lock_unspent parse cmd a).1) op ≡ true
  lock_unspent_stays cmd cmds a l done spares =
      after_calls-locked cmds (lock_unspent parse cmd a).1 spares (lock_unspent_locks cmd a l done)
