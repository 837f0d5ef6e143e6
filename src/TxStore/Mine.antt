-- ===== src/TxStore/Mine.antt =====
-- Moving an unconfirmed transaction into a block, and `InsertTx` (txstore/tx.go).
pub mod Unmined
use btcwallet.Prelude.{
  ℕ, zero, suc, Bool, true, false, ◌&&◌, not, Option, none, some, List, [], ◌∷◌, ◌++◌, ◌==◌, length,
  if◌then◌else◌,
}
use btcwallet.Prelude.Int.{ℤ, eqb_ℤ}
use btcwallet.Prelude.Map.{Map, lookup, insert, erase, nat_eq}
use btcwallet.TxStore.Types.{
  Store, Time, is_zero, before, Tx, TxRecord, TxHandle, Block, Credit, Debits, UnconfirmedStore,
  OutPoint, BlockTxKey, BlockOutputKey, RecordRef, CollectionRef, Result, ok, err, panic, int_eq,
  out_point_eq, output_key_eq, inconsistent_store, index_set, index_unset, unmined_key, elems,
}
use btcwallet.TxStore.Monad.{
  M, pure, fail, gets, try, modify, crash, skip, ◌>>=◌, ◌>>◌, get_record, set_record,
  get_collection, set_collection, update_unconfirmed, each, each_indexed, set_spent_by,
  add_spendable, sub_spendable, output_value,
}
use btcwallet.TxStore.Lookup.{lookup_block_tx}
use btcwallet.TxStore.Insert.{
  block_collection_for_inserts, block_tx_record_for_inserts, unconfirmed_record_for_inserts,
}
use btcwallet.TxStore.Conflict.{drop_previous, drop_block_spend, remove_double_spends}

-- `r.debits.spends = append(r.debits.spends, prev)`
unfoldable pub append_spend : RecordRef → BlockOutputKey → M (Unit {0})
append_spend r prev = do
  t ← try (get_record r)
  elim t.debits [
    | none ↦ crash
    | some d ↦ modify (
        set_record r
          (record t { debits = some (record d { spends = some (elems d.spends ++ (prev ∷ [])) }) }))
  ]

-- One round of the loop of `moveMinedTx` over the inputs.
unfoldable pub mine_input : RecordRef → BlockTxKey → OutPoint → M (Unit {0})
unfolding lookup_block_tx set_spent_by append_spend
mine_input r key op = do
  modify (update_unconfirmed (drop_previous op))
  found ← gets (λ s. lookup op s.unconfirmed.spent_block_out_point_keys)
  elim found [
    | none ↦ skip
    | some prev ↦ do
      modify (update_unconfirmed (drop_block_spend op prev))
      rr ← try (lookup_block_tx prev.block_tx_key)
      set_spent_by rr prev.output_index (some key)
      append_spend r prev
  ]

-- The spender `rr` of an output that is mined now spends from a block.
abbrev pub spend_from_block :
    OutPoint → BlockOutputKey → RecordRef → UnconfirmedStore → UnconfirmedStore
spend_from_block op prev rr u = record u {
  spent_unconfirmed = erase op u.spent_unconfirmed;
  spent_block_out_point_keys = insert op prev u.spent_block_out_point_keys;
  spent_block_out_points = insert prev rr u.spent_block_out_points;
}

-- One round of the loop of `moveMinedTx` over the credits.
unfoldable pub mine_credit :
    RecordRef → CollectionRef → BlockTxKey → ℕ → Option Credit → M (Unit {0})
unfolding set_spent_by add_spendable
mine_credit r b key i none = skip
mine_credit r b key i (some c) = do
  t ← try (get_record r)
  let op : OutPoint = record { hash = t.tx.msg_tx.sha; index = i }
  found ← gets (λ s. lookup op s.unconfirmed.spent_unconfirmed)
  elim found [
    | some rr ↦ do
      modify (
          update_unconfirmed
            (spend_from_block op (record { block_tx_key = key; output_index = i }) rr))
      set_spent_by r i (some unmined_key)
    | none ↦ elim c.spent_by [
      | some k ↦ skip
      | none ↦ do
        modify (λ s. record s { unspent = insert op key s.unspent })
        value ← try (λ s. output_value t i)
        add_spendable b value
    ]
  ]

unfoldable pub append_tx : CollectionRef → RecordRef → ℤ → M (Unit {0})
append_tx c r index = do
  b ← try (get_collection c)
  modify (
      set_collection c (record b {
        txs = b.txs ++ (r ∷ []);
        tx_indexes = insert index (length b.txs) b.tx_indexes;
      }))

unfoldable pub debit_block : RecordRef → CollectionRef → M (Unit {0})
unfolding sub_spendable
debit_block r b = do
  t ← try (get_record r)
  elim t.debits [ none ↦ skip | some d ↦ sub_spendable b d.amount ]

-- `Store.moveMinedTx`
unfoldable pub move_mined_tx : RecordRef → Block → M (Unit {0})
unfolding block_collection_for_inserts append_tx mine_input mine_credit debit_block each
    each_indexed
move_mined_tx r block = do
  t ← try (get_record r)
  modify (update_unconfirmed (λ u. record u { txs = erase t.tx.msg_tx.sha u.txs }))
  let key : BlockTxKey = record { block_index = t.tx.index; block_height = block.height }
  b ← block_collection_for_inserts block
  append_tx b r key.block_index
  each (mine_input r key) t.tx.msg_tx.tx_in
  t' ← try (get_record r)
  each_indexed (mine_credit r b key) 0 t'.credits
  debit_block r b

-- `r.Tx().SetIndex(i)`
unfoldable pub set_index : RecordRef → ℤ → M (Unit {0})
set_index r i = do
  t ← try (get_record r)
  let tx = t.tx
  modify (set_record r (record t { tx = record tx { index = i } }))

unfoldable pub set_received : RecordRef → Time → M (Unit {0})
set_received r time = do
  t ← try (get_record r)
  modify (set_record r (record t { received = time }))

-- The receive time of a new mined record: the earlier of now and the block's time, if that is set.
abbrev pub earlier_time : Time → Time → Time
earlier_time block_time now =
    if not (is_zero block_time) && before block_time now then block_time else now

-- `InsertTx` without a block.
unfoldable pub insert_unmined : Tx → Time → M TxHandle
unfolding unconfirmed_record_for_inserts set_received
insert_unmined tx now = do
  r ← unconfirmed_record_for_inserts tx
  set_received r now
  pure (record { key = unmined_key; ref = r })

-- `InsertTx` where the block has no record for the transaction.
unfoldable pub insert_mined : ℕ → Tx → Block → Time → M TxHandle
unfolding move_mined_tx set_index remove_double_spends block_tx_record_for_inserts set_received
insert_mined fuel tx block now = do
  let key : BlockTxKey = record { block_index = tx.index; block_height = block.height }
  found ← gets (λ s. lookup tx.msg_tx.sha s.unconfirmed.txs)
  elim found [
    | some r ↦ do set_index r tx.index; move_mined_tx r block; pure (record { key = key; ref = r })
    | none ↦ do
      remove_double_spends fuel tx
      r ← block_tx_record_for_inserts tx block
      t ← try (get_record r)
      (if is_zero t.received then set_received r (earlier_time block.time now) else skip)
      pure (record { key = key; ref = r })
  ]

-- `Store.InsertTx`, given btcutil.TxIndexUnknown and what time.Now returns.
unfoldable pub insert_tx : ℤ → ℕ → Time → Tx → Option Block → M TxHandle
unfolding lookup_block_tx insert_unmined insert_mined
insert_tx unknown fuel now tx none s =
    if eqb_ℤ tx.index unknown then insert_unmined tx now s else (err index_set, s)
insert_tx unknown fuel now tx (some block) s =
    let key : BlockTxKey = record { block_index = tx.index; block_height = block.height } in
    if eqb_ℤ tx.index unknown then (err index_unset, s) else elim (lookup_block_tx key s) [
      | err e ↦ insert_mined fuel tx block now s
      | panic ↦ (panic, s)
      | ok r ↦ elim (get_record r s) [
        | ok t ↦
            if t.tx.msg_tx.sha == tx.msg_tx.sha
            then (ok (record { key = key; ref = r }), s)
            else (err inconsistent_store, s)
        | err e ↦ (err e, s)
        | panic ↦ (panic, s)
      ]
    ]
