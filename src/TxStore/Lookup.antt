-- ===== src/TxStore/Lookup.antt =====
-- The lookups of txstore/tx.go.
use btcwallet.Prelude.{none, some, get_elem?}
use btcwallet.Prelude.Int.{ℤ}
use btcwallet.Prelude.Map.{lookup}
use btcwallet.TxStore.Types.{
  Store, TxRecord, BlockTxCollection, BlockTxKey, BlockOutputKey, Credit, Debits, RecordRef,
  CollectionRef, Result, ok, err, int_eq, missing_block, missing_block_tx, missing_debits,
  missing_credit,
}
use btcwallet.TxStore.Monad.{then_try, or_panic, get_record, get_collection}

-- `Store.lookupBlock`
unfoldable pub lookup_block : ℤ → Store → Result CollectionRef
lookup_block height s = elim (lookup height s.block_indexes) [
  | some i ↦ or_panic (get_elem? s.blocks i)
  | none ↦ err (missing_block height)
]

-- What `Store.lookupBlockTx` does with the collection that it found.
unfoldable pub lookup_in_collection : BlockTxKey → BlockTxCollection → Result RecordRef
lookup_in_collection key coll = elim (lookup key.block_index coll.tx_indexes) [
  | some i ↦ or_panic (get_elem? coll.txs i)
  | none ↦ err (missing_block_tx key)
]

-- `Store.lookupBlockTx`
unfoldable pub lookup_block_tx : BlockTxKey → Store → Result RecordRef
unfolding lookup_block lookup_in_collection
lookup_block_tx key s =
    then_try (lookup_block key.block_height s)
      λ c. then_try (get_collection c s) λ coll. lookup_in_collection key coll

-- `Store.lookupBlockDebits`
unfoldable pub lookup_block_debits : BlockTxKey → Store → Result Debits
unfolding lookup_block_tx
lookup_block_debits key s = then_try (lookup_block_tx key s) λ r.
    then_try (get_record r s) λ t. elim t.debits [ none ↦ err (missing_debits key) | some d ↦ ok d ]

-- `txRecord.lookupBlockCredit`: the slice may be short, and its element nil.
unfoldable pub record_credit : BlockOutputKey → TxRecord → Result Credit
record_credit key t = elim (get_elem? t.credits key.output_index) [
  | none ↦ err (missing_credit key)
  | some none ↦ err (missing_credit key)
  | some (some c) ↦ ok c
]

-- `Store.lookupBlockCredit`
unfoldable pub lookup_block_credit : BlockOutputKey → Store → Result Credit
unfolding lookup_block_tx record_credit
lookup_block_credit key s =
    then_try (lookup_block_tx key.block_tx_key s)
      λ r. then_try (get_record r s) λ t. record_credit key t
