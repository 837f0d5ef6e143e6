-- ===== src/TxStore/Rollback.antt =====
-- `Store.Rollback` (txstore/tx.go).
pub mod Frame
pub mod Blocks
use btcwallet.Prelude.{
  ℕ, zero, suc, ◌+◌, Bool, true, false, Option, none, some, List, [], ◌∷◌, ◌++◌, get_elem?, set,
  take, drop, length, if◌then◌else◌,
}
use btcwallet.Prelude.Int.{ℤ, pos, eqb_ℤ, minus_one, ◌-ℤ◌}
use btcwallet.Prelude.Map.{Map, lookup, insert, erase, nat_eq}
use btcwallet.TxStore.Types.{
  Store, Tx, TxRecord, Credit, Debits, UnconfirmedStore, OutPoint, BlockTxKey, BlockOutputKey,
  RecordRef, CollectionRef, Result, ok, err, panic, int_eq, out_point_eq, output_key_eq,
  eqb_output_key, inconsistent_store, missing_debits, missing_credit, unmined_key, elems,
}
use btcwallet.TxStore.Monad.{
  M, pure, fail, gets, try, modify, crash, skip, ◌>>=◌, ◌>>◌, get_record, set_record,
  get_collection, update_unconfirmed, each, each_indexed, set_spent_by,
}
use btcwallet.TxStore.Lookup.{lookup_block_tx, record_credit}
use btcwallet.TxStore.Insert.{slot_for, height_of, set_previous}
use btcwallet.TxStore.Conflict.{drop_block_spend}
use btcwallet.TxStore.Mine.{set_index}
use btcwallet.TxStore.Spend.{spend_mined, spend_unmined, is_unmined}

-- The loop of `txRecord.swapDebits`: the first occurrence is replaced.
unfoldable pub swap_spend :
    BlockOutputKey → BlockOutputKey → List BlockOutputKey → Option (List BlockOutputKey)
swap_spend previous current [] = none
swap_spend previous current (k ∷ ks) =
    let rest = swap_spend previous current ks in
    if eqb_output_key k previous
    then some (current ∷ ks)
    else elim rest [ none ↦ none | some ks' ↦ some (k ∷ ks') ]

-- `txRecord.swapDebits` of a record with debits.
unfoldable pub swap_debits : RecordRef → BlockOutputKey → BlockOutputKey → M (Unit {0})
unfolding swap_spend
swap_debits r previous current = do
  t ← try (get_record r)
  elim t.debits [
    | none ↦ crash
    | some d ↦ elim (swap_spend previous current (elems d.spends)) [
      | none ↦ fail (missing_credit previous)
      | some ks ↦ modify (set_record r (record t { debits = some (record d { spends = some ks }) }))
    ]
  ]

-- A spent credit of a detached transaction: its spender spends an unconfirmed output from now on.
unfoldable pub detach_spender : OutPoint → BlockOutputKey → BlockTxKey → M (Unit {0})
unfolding lookup_block_tx swap_debits
detach_spender op prev spender_key =
    if is_unmined spender_key
    then (do
      found ← gets (λ s. lookup prev s.unconfirmed.spent_block_out_points)
      elim found [
        | none ↦ fail inconsistent_store
        | some spender ↦
            modify (update_unconfirmed (λ u. spend_unmined op spender (drop_block_spend op prev u)))
      ])
    else do
      spender ← try (lookup_block_tx spender_key)
      t ← try (get_record spender)
      elim t.debits [
        | none ↦ fail (missing_debits spender_key)
        | some d ↦
            swap_debits spender prev (record { block_tx_key = unmined_key; output_index = 0 })
      ]

-- One round of the loop of `Rollback` over the credits of a transaction.
unfoldable pub detach_credit : Tx → BlockTxKey → ℕ → Option Credit → M (Unit {0})
unfolding detach_spender
detach_credit tx key i none = skip
detach_credit tx key i (some c) = do
  let op : OutPoint = record { hash = tx.msg_tx.sha; index = i }
  modify (λ s. record s { unspent = erase op s.unspent })
  elim c.spent_by [
    | none ↦ skip
    | some k ↦ detach_spender op (record { block_tx_key = key; output_index = i }) k
  ]

-- One round of the loop of `Rollback` over the outputs that the transaction spends.
unfoldable pub detach_spend : RecordRef → BlockOutputKey → M (Unit {0})
unfolding lookup_block_tx record_credit set_spent_by
detach_spend r prev = do
  rr ← try (lookup_block_tx prev.block_tx_key)
  t ← try (get_record rr)
  c ← try (λ s. record_credit prev t)
  let op : OutPoint = record { hash = t.tx.msg_tx.sha; index = prev.output_index }
  modify (update_unconfirmed (spend_mined op prev r))
  set_spent_by rr prev.output_index (some unmined_key)

unfoldable pub clear_spends : RecordRef → M (Unit {0})
clear_spends r = do
  t ← try (get_record r)
  elim t.debits [
    | none ↦ skip
    | some d ↦ modify (set_record r (record t { debits = some (record d { spends = none }) }))
  ]

-- The outputs that a transaction spends, marked again as spent by an unconfirmed transaction.
unfoldable pub detach_debits : RecordRef → M (Unit {0})
unfolding detach_spend clear_spends each
detach_debits r = do
  t ← try (get_record r)
  elim t.debits [ none ↦ skip | some d ↦ do each (detach_spend r) (elems d.spends); clear_spends r ]

abbrev pub add_unconfirmed : Tx → RecordRef → UnconfirmedStore → UnconfirmedStore
add_unconfirmed tx r u = record u {
  txs = insert tx.msg_tx.sha r u.txs;
  previous_outpoints = set_previous tx.msg_tx.tx_in r u.previous_outpoints;
}

-- A transaction of a detached block becomes unconfirmed, but for a coinbase.
unfoldable pub detach_tx : ℤ → ℤ → RecordRef → M (Unit {0})
unfolding set_index set_previous detach_credit detach_debits each_indexed
detach_tx unknown height r = do
  t ← try (get_record r)
  if eqb_ℤ t.tx.index (pos 0) then skip else do
    set_index r unknown
    modify (update_unconfirmed (add_unconfirmed t.tx r))
    each_indexed (detach_credit t.tx (record { block_index = t.tx.index; block_height = height })) 0
        t.credits
    detach_debits r

-- A detached block. `b.txs[0]` is read for the log, and there must be one.
unfoldable pub detach_block : ℤ → CollectionRef → M (Unit {0})
unfolding detach_tx each
detach_block unknown c = do
  b ← try (get_collection c)
  elim b.txs [
    | [] ↦ crash
    | r ∷ rs ↦ do
      modify (λ s. record s { block_indexes = erase b.block.height s.block_indexes })
      each (detach_tx unknown b.block.height) b.txs
  ]

-- `Store.Rollback`, given btcutil.TxIndexUnknown. The slice is cut before the blocks are detached.
unfoldable pub rollback : ℤ → ℤ → M (Unit {0})
unfolding slot_for detach_block each
rollback unknown height s =
    let i = slot_for (height_of s.collections) s.blocks height (length s.blocks) in
    each (detach_block unknown) (drop i s.blocks) (record s { blocks = take i s.blocks })
