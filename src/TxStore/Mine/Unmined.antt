-- ===== src/TxStore/Mine/Unmined.antt =====
-- `InsertTx` of a transaction that is not in a block.
use btcwallet.Prelude.{
  ℕ, ◌≡◌, refl, ◌∙◌, none, some, arith, length, get_elem?, get_elem?-set_self, get_elem?-lt,
  get_elem?-append_end, ap,
}
use btcwallet.Prelude.Int.{ℤ, eqb_ℤ_iff}
use btcwallet.Prelude.Map.{lookup, lookup-insert_self, nat_eq}
use btcwallet.TxStore.Types.{Store, Time, Tx, TxRecord, RecordRef, ok, new_record, unmined_key}
use btcwallet.TxStore.Monad.{get_record, set_record, or_panic}
use btcwallet.TxStore.Insert.{add_unconfirmed_record, unconfirmed_record_for_inserts}
use btcwallet.TxStore.Mine.{set_received, insert_unmined, insert_tx}

set_received_eq :
    (r : RecordRef) (now : Time) (s : Store) (t : TxRecord)
    → get_elem? s.records r ≡ some t
    → set_received r now s ≡ (ok tt, set_record r (record t { received = now }) s)
unfolding set_received
set_received_eq r now s t at = rw (at, set_received) refl

received_at :
    (r : RecordRef) (s : Store) (t t' : TxRecord)
    → get_elem? s.records r ≡ some t
    → get_record r (set_record r t' s) ≡ ok t'
received_at r s t t' at =
    ap or_panic (get_elem?-set_self s.records r t' (get_elem?-lt s.records r at))

insert_unmined_eq :
    (tx : Tx) (now : Time) (s : Store) (r : RecordRef) (s' : Store) (t : TxRecord)
    → unconfirmed_record_for_inserts tx s ≡ (ok r, s')
    → get_elem? s'.records r ≡ some t
    → insert_unmined tx now s
      ≡ (ok (record { key = unmined_key; ref = r }), set_record r (record t { received = now }) s')
unfolding insert_unmined
insert_unmined_eq tx now s r s' t e at =
    rw (e, insert_unmined) (rw (set_received_eq r now s' t at) refl)

insert_tx_unmined_eq :
    (unknown : ℤ) (fuel : ℕ) (now : Time) (tx : Tx) (s : Store)
    → tx.index ≡ unknown
    → insert_tx unknown fuel now tx none s ≡ insert_unmined tx now s
unfolding insert_tx
insert_tx_unmined_eq unknown fuel now tx s i = ground (arith, (eqb_ℤ_iff tx.index unknown).1 i)

new_unconfirmed_eq :
    (tx : Tx) (s : Store)
    → lookup tx.msg_tx.sha s.unconfirmed.txs ≡ none
    → unconfirmed_record_for_inserts tx s
      ≡ (ok (add_unconfirmed_record tx s).0, (add_unconfirmed_record tx s).1)
unfolding unconfirmed_record_for_inserts
new_unconfirmed_eq tx s new = rw (new, unconfirmed_record_for_inserts) refl

known_unconfirmed_eq :
    (tx : Tx) (s : Store) (r : RecordRef)
    → lookup tx.msg_tx.sha s.unconfirmed.txs ≡ some r
    → unconfirmed_record_for_inserts tx s ≡ (ok r, s)
unfolding unconfirmed_record_for_inserts
known_unconfirmed_eq tx s r known = rw (known, unconfirmed_record_for_inserts) refl

-- `InsertTx` of a transaction that is new to the store and not mined returns a handle to a new
-- record, under which the transaction's hash is looked up, and whose receive time is now.
pub insert_tx_new_unmined :
    (unknown : ℤ) (fuel : ℕ) (now : Time) (tx : Tx) (s : Store)
    → tx.index ≡ unknown
    → lookup tx.msg_tx.sha s.unconfirmed.txs ≡ none
    → let (r, s') = insert_tx unknown fuel now tx none s in
      (r ≡ ok (record { key = unmined_key; ref = length s.records }))
      × (lookup tx.msg_tx.sha s'.unconfirmed.txs ≡ some (length s.records))
      × (get_record (length s.records) s' ≡ ok (record (new_record tx) { received = now }))
unfolding add_unconfirmed_record
insert_tx_new_unmined unknown fuel now tx s i new =
    let at = get_elem?-append_end s.records (new_record tx) in
    let s' = (add_unconfirmed_record tx s).1 in
    rw
      (
        insert_tx_unmined_eq unknown fuel now tx s i,
        insert_unmined_eq tx now s _ s' (new_record tx) (new_unconfirmed_eq tx s new) at,
      )
      (
        refl,
        lookup-insert_self tx.msg_tx.sha (length s.records) s.unconfirmed.txs,
        received_at (length s.records) s' (new_record tx) _ at,
      )

-- `InsertTx` of a transaction that is unconfirmed already returns the record that it has, and
-- sets its receive time to now, whatever it was. No other part of the store changes.
pub insert_tx_known_unmined :
    (unknown : ℤ) (fuel : ℕ) (now : Time) (tx : Tx) (s : Store) (r : RecordRef) (t : TxRecord)
    → tx.index ≡ unknown
    → lookup tx.msg_tx.sha s.unconfirmed.txs ≡ some r
    → get_elem? s.records r ≡ some t
    → insert_tx unknown fuel now tx none s
      ≡ (ok (record { key = unmined_key; ref = r }), set_record r (record t { received = now }) s)
insert_tx_known_unmined unknown fuel now tx s r t i known at =
    insert_tx_unmined_eq unknown fuel now tx s i
    ∙ insert_unmined_eq tx now s r s t (known_unconfirmed_eq tx s r known) at
