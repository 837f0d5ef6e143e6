-- ===== src/Tests/Transactions.antt =====
-- The operations of txstore/tx.go on transactions at a concrete store.
use btcwallet.Prelude.{◌≡◌, refl, true, none, some, [], ◌∷◌}
use btcwallet.Prelude.Int.{pos, minus_one}
use btcwallet.Prelude.Map.{lookup, nat_eq}
use btcwallet.TxStore.Types.{
  Store, Tx, TxRecord, Credit, OutPoint, RecordRef, ok, new, new_record, unix_time, unmined_key,
  out_point_eq,
}
use btcwallet.TxStore.Monad.{get_record}
use btcwallet.TxStore.Insert.{unconfirmed_record_for_inserts}
use btcwallet.TxStore.Conflict.{find_double_spend}
use btcwallet.TxStore.Conflict.Detect.{spends, find_double_spend-unconfirmed}
use btcwallet.TxStore.Mine.{insert_tx}
use btcwallet.TxStore.Mine.Unmined.{insert_tx_new_unmined}

abbrev coin : OutPoint
coin = record { hash = 9; index = 0 }

abbrev payment : Tx
payment = record {
  msg_tx = record {
    sha = 5;
    tx_in = coin ∷ [];
    tx_out =
        record { value = pos 100; pk_script = [] }
        ∷ record { value = pos 200; pk_script = [] }
        ∷ [];
  };
  index = minus_one;
}

abbrev change_credit : Credit
change_credit = record { change = true; spent_by = none }

abbrev payment_record : TxRecord
payment_record = record (new_record payment) { credits = some change_credit ∷ [] }

-- A store with one unconfirmed transaction.
abbrev with_payment : Store
with_payment = record new {
  records = payment_record ∷ [];
  unconfirmed = record new.unconfirmed { txs = (5, 0) ∷ []; previous_outpoints = (coin, 0) ∷ [] };
}

insert_tx_new_unmined_example :
    let (r, s') = insert_tx minus_one 10 (unix_time (pos 50)) payment none new in
    (r ≡ ok (record { key = unmined_key; ref = 0 }))
    × (lookup 5 s'.unconfirmed.txs ≡ some 0)
    × (get_record 0 s' ≡ ok (record (new_record payment) { received = unix_time (pos 50) }))
unfolding lookup
insert_tx_new_unmined_example =
    insert_tx_new_unmined minus_one 10 (unix_time (pos 50)) payment new refl refl

-- Another transaction that spends the same coin.
abbrev rival : Tx
rival = record { msg_tx = record { sha = 6; tx_in = coin ∷ []; tx_out = [] }; index = minus_one }

find_double_spend-unconfirmed_example :
    let (r, s') = unconfirmed_record_for_inserts payment new in
    (found : RecordRef) × (find_double_spend rival.msg_tx.tx_in s'.unconfirmed.previous_outpoints
      ≡ some found)
unfolding lookup spends
find_double_spend-unconfirmed_example =
    find_double_spend-unconfirmed new payment coin rival.msg_tx.tx_in refl refl refl
