-- ===== src/TxStore/Query/Records.antt =====
-- All records of the store, and what a Credit gives of its output (txstore/tx.go).
use btcwallet.Prelude.{ℕ, Bool, none, some, List, [], ◌∷◌, ◌++◌, map, get_elem?}
use btcwallet.TxStore.Types.{
  Store, TxHandle, CreditHandle, BlockTxCollection, RecordRef, CollectionRef, Result, ok, panic,
  unmined_key,
}
use btcwallet.TxStore.Monad.{then_try, or_panic, get_record, get_collection}
use btcwallet.TxStore.Query.{credit_indexes}

-- The handles of the records of one block.
unfoldable pub block_records : Store → BlockTxCollection → List RecordRef → Result (List TxHandle)
block_records s b [] = ok []
block_records s b (r ∷ rs) =
    let rest = block_records s b rs in
    then_try (get_record r s) λ t. then_try rest λ hs. ok (
      record { key = record { block_index = t.tx.index; block_height = b.block.height }; ref = r }
      ∷ hs)

unfoldable pub mined_records : Store → List CollectionRef → Result (List TxHandle)
mined_records s [] = ok []
mined_records s (c ∷ cs) =
    let rest = mined_records s cs in
    then_try (get_collection c s)
      λ b. then_try (block_records s b b.txs) λ hs. then_try rest λ more. ok (hs ++ more)

-- `Store.Records`, with package sort's sorting by byReceiveDate as a parameter.
unfoldable pub records : (List TxHandle → List TxHandle) → Store → Result (List TxHandle)
records sort_by_received s = then_try (mined_records s s.blocks) λ mined.
    let unconfirmed = map (λ e. record { key = unmined_key; ref = e.1 }) s.unconfirmed.txs in
    ok (mined ++ sort_by_received unconfirmed)

-- `TxRecord.Credits`
unfoldable pub credits : Store → TxHandle → Result (List CreditHandle)
credits s t =
    then_try (get_record t.ref s)
      λ r. ok (map (λ i. record { tx = t; output_index = i }) (credit_indexes 0 r.credits))

-- `Credit.Change`
unfoldable pub change : Store → CreditHandle → Result Bool
change s c = then_try (get_record c.tx.ref s) λ r. elim (get_elem? r.credits c.output_index) [
  | none ↦ panic
  | some none ↦ panic
  | some (some d) ↦ ok d.change
]

-- The script that `Credit.Addresses` parses.
unfoldable pub credit_script : Store → CreditHandle → Result (List ℕ)
credit_script s c =
    then_try (get_record c.tx.ref s)
      λ r. then_try (or_panic (get_elem? r.tx.msg_tx.tx_out c.output_index)) λ o. ok o.pk_script
