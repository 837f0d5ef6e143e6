-- ===== src/Tests/Account.antt =====
-- Locked outpoints and used addresses at concrete accounts.
use mathlib.Core.Path.{subst}
use btcwallet.Prelude.{
  length, get_elem?, zero, suc, none, List, ◌≤◌, ℕ, ◌≡◌, ◌≢◌, refl, true, false, Option, some, [],
  ◌∷◌, arith, All,
}
use btcwallet.Prelude.Int.{pos, negsuc, wrap64, wrap32, ◌+ℤ◌, ◌-ℤ◌, ◌*ℤ◌}
use btcwallet.Prelude.Map.{lookup, insert, erase}
use btcwallet.TxStore.Types.{OutPoint, ShaHash, new, TxRecord, Store, TxHandle, unix_time, ok}
use btcwallet.TxStore.Query.Records.{records, mined_records, credits, credit_script}
use btcwallet.TxStore.Query.Readable.{IsReadable}
use btcwallet.TxStore.Query.{confirmed, credit_indexes}
use btcwallet.Keystore.Address.{Bytes, bytes_equal}
use btcwallet.CreateTx.{select_inputs, select_loop, minimum_fee}
use btcwallet.CreateTx.Pairs.{
  made, tx_to_pairs, start_pairs, sum_amounts, make_outputs, eligible_coins, filter_eligible,
  is_eligible, fee_loop, try_fee, spend_inputs, add_change, swap, get_change_address, finish_round,
  needed_fee, sign_each, sign_input, sign_for, sign_by_key, set_script, unsigned, validate,
  allow_free,
}
use btcwallet.CreateTx.Pairs.Signing.{previous_outs}
use btcwallet.Account.{
  Account, TransactionInput, LockUnspentCmd, input_outpoint, new_account, locked_outpoint,
  lock_outpoint, unlock_outpoint, lock_inputs, lock_transactions, lock_unspent, address_used,
  record_pays_to, credit_pays_to, pays_to,
}
use btcwallet.Account.Used.{Decides, RecordPays, address_used-Decides}
use btcwallet.Account.Locks.{IsLocking, Spares, after_calls}
use btcwallet.Account.NotSpent.{locked_outpoint_not_spent}
use btcwallet.Tests.Pairs.{small_calls, settings, sorting, one_coin, payment, paid_tx}

-- Each string is parsed to its first character.
abbrev parse : Bytes → Option ShaHash
parse [] = some 0
parse (x ∷ xs) = some x

abbrev locked_point : OutPoint
locked_point = record { hash = 9; index = 0 }

abbrev input : ℕ → TransactionInput
input vout = record { txid = 9 ∷ []; vout = vout }

-- Two outpoints are locked, and the second is unlocked.
abbrev lock_two : LockUnspentCmd
lock_two = record { unlock = false; transactions = input 1 ∷ input 0 ∷ [] }

abbrev unlock_one : LockUnspentCmd
unlock_one = record { unlock = true; transactions = input 1 ∷ [] }

abbrev empty_account : Account (Unit {0})
unfolding new_account
empty_account = new_account [] tt new

abbrev locked_account : Account (Unit {0})
locked_account = record empty_account { locked = (locked_point, tt) ∷ [] }

lock_two-IsLocking : IsLocking parse locked_point lock_two
unfolding input_outpoint
lock_two-IsLocking = record {
  locks = refl;
  place = 1;
  input = input 0;
  stands = refl;
  names = refl;
}

unlock_one-Spares : Spares parse locked_point unlock_one
unfolding input_outpoint
unlock_one-Spares e = ((λ h. absurd (cc)), ((λ h. ground arith), tt))

locks_done : (lock_unspent parse lock_two empty_account).0 ≡ true
unfolding lock_unspent lock_transactions lock_inputs input_outpoint lock_outpoint insert new_account
locks_done = refl

account_after :
    after_calls parse (unlock_one ∷ []) (lock_unspent parse lock_two empty_account).1
    ≡ locked_account
unfolding lock_unspent lock_transactions lock_inputs input_outpoint lock_outpoint unlock_outpoint
    insert erase new_account
account_after = refl

account_payment_made :
    tx_to_pairs small_calls settings 5
      (payment ∷ [])
      (pos 1)
      (locked_outpoint locked_account)
      (some (pos 300005))
      (some one_coin)
      tt
    ≡ some (made paid_tx, tt)
unfolding tx_to_pairs start_pairs sum_amounts make_outputs eligible_coins filter_eligible
    is_eligible fee_loop try_fee spend_inputs add_change swap get_change_address finish_round
    needed_fee sign_each sign_input sign_for sign_by_key set_script unsigned validate confirmed
    select_inputs select_loop minimum_fee allow_free wrap64 wrap32 ◌+ℤ◌ ◌-ℤ◌ ◌*ℤ◌ locked_outpoint
    lookup new_account
account_payment_made = refl

locked_outpoint_not_spent_example : All (λ o. o ≢ locked_point) (previous_outs paid_tx.tx.tx_in)
locked_outpoint_not_spent_example =
    locked_outpoint_not_spent small_calls settings sorting.same_coins (pos 1) parse locked_point
      lock_two (unlock_one ∷ []) empty_account locked_account 5 (payment ∷ []) (some (pos 300005))
      (some one_coin) tt paid_tx lock_two-IsLocking locks_done (unlock_one-Spares, tt) account_after
      account_payment_made

-- An unconfirmed transaction, the first output of which is a credit and pays to the hash "k".
abbrev paying : TxRecord
paying = record {
  tx = record {
    msg_tx = record {
      sha = 5;
      tx_in = [];
      tx_out = record { value = pos 1000; pk_script = b'k' ∷ [] } ∷ [];
    };
    index = negsuc 0;
  };
  debits = none;
  credits = some (record { change = false; spent_by = none }) ∷ [];
  received = unix_time (pos 1400000000);
}

abbrev paid_store : Store
paid_store = record new {
  records = paying ∷ [];
  unconfirmed = record new.unconfirmed { txs = (5, 0) ∷ [] };
}

paying_fits :
    (r : ℕ) (t : TxRecord)
    → get_elem? paid_store.records r ≡ some t
    → length t.credits ≤ length t.tx.msg_tx.tx_out
paying_fits zero t at =
    let same : paying ≡ t = cc in
    subst (λ x. length x.credits ≤ length x.tx.msg_tx.tx_out) same (omega arith)
paying_fits (suc r) t at = absurd (cc)

paid_store-IsReadable : IsReadable paid_store
paid_store-IsReadable = record {
  credits_fit = paying_fits;
  blocks_stand = tt;
  txs_stand = λ c b at. absurd (cc);
  unconfirmed_stand = (omega arith, tt);
}

abbrev paid_account : Account (Unit {0})
paid_account = record empty_account { tx_store = paid_store }

address_used-Decides_example :
    (rs : List TxHandle) × (records (λ ts. ts) paid_store ≡ ok rs)
    × Decides
        (RecordPays {Address = Bytes} (λ s. s ∷ []) (λ x. x) (b'k' ∷ []) paid_store)
        rs
        (address_used {Address = Bytes} (λ s. s ∷ []) (λ ts. ts) (λ x. x) (b'k' ∷ []) paid_account)
address_used-Decides_example =
    address_used-Decides {Address = Bytes} (λ s. s ∷ []) (λ x. x) (b'k' ∷ []) (λ ts. ts)
      paid_account (λ P ts h. h) paid_store-IsReadable

-- The address is found.
paid_account_used :
    address_used {Address = Bytes} (λ s. s ∷ []) (λ ts. ts) (λ x. x) (b'k' ∷ []) paid_account
    ≡ ok true
unfolding address_used record_pays_to credit_pays_to pays_to records mined_records credits
    credit_indexes credit_script bytes_equal
paid_account_used = refl
