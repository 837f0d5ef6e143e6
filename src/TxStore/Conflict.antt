-- ===== src/TxStore/Conflict.antt =====
-- Removing double spends (txstore/tx.go).
pub mod Detect
use btcwallet.Prelude.{
  ℕ, zero, suc, Bool, true, false, Option, none, some, List, [], ◌∷◌, ◌==◌, if◌then◌else◌,
}
use btcwallet.Prelude.Map.{Map, lookup, erase, nat_eq}
use btcwallet.TxStore.Types.{
  Store, Tx, TxRecord, Credit, UnconfirmedStore, OutPoint, BlockOutputKey, RecordRef, Result, ok,
  err, panic, out_point_eq, output_key_eq, inconsistent_store,
}
use btcwallet.TxStore.Monad.{
  M, pure, fail, gets, try, modify, crash, skip, ◌>>=◌, ◌>>◌, get_record, update_unconfirmed, each,
  each_indexed, set_spent_by,
}
use btcwallet.TxStore.Lookup.{lookup_block_tx}

-- `unconfirmedStore.findDoubleSpend`
unfoldable pub find_double_spend : List OutPoint → Map OutPoint RecordRef → Option RecordRef
find_double_spend [] m = none
find_double_spend (op ∷ ops) m = elim (lookup op m) [
  | some r ↦ some r
  | none ↦ find_double_spend ops m
]

abbrev pub drop_previous : OutPoint → UnconfirmedStore → UnconfirmedStore
drop_previous op u = record u { previous_outpoints = erase op u.previous_outpoints }

-- Both maps forget that the output of a mined transaction is spent.
abbrev pub drop_block_spend : OutPoint → BlockOutputKey → UnconfirmedStore → UnconfirmedStore
drop_block_spend op prev u = record u {
  spent_block_out_point_keys = erase op u.spent_block_out_point_keys;
  spent_block_out_points = erase prev u.spent_block_out_points;
}

abbrev pub drop_unconfirmed_spend : OutPoint → UnconfirmedStore → UnconfirmedStore
drop_unconfirmed_spend op u = record u { spent_unconfirmed = erase op u.spent_unconfirmed }

-- One round of the loop of `removeConflict` over the inputs.
unfoldable pub unspend_input : OutPoint → M (Unit {0})
unfolding lookup_block_tx set_spent_by
unspend_input op = do
  modify (update_unconfirmed (drop_previous op))
  found ← gets (λ s. lookup op s.unconfirmed.spent_block_out_point_keys)
  elim found [
    | some prev ↦ do
      modify (update_unconfirmed (drop_block_spend op prev))
      rr ← try (lookup_block_tx prev.block_tx_key)
      set_spent_by rr prev.output_index none
    | none ↦ modify (update_unconfirmed (drop_unconfirmed_spend op))
  ]

-- What `removeConflict` does for a credit: `recur` removes the transaction that spends it.
unfoldable pub remove_spender : (RecordRef → M (Unit {0})) → Tx → ℕ → Option Credit → M (Unit {0})
remove_spender recur tx i none = skip
remove_spender recur tx i (some c) = elim c.spent_by [
  | none ↦ skip
  | some k ↦ do
    found ←
        gets
          (λ s. lookup (record { hash = tx.msg_tx.sha; index = i }) s.unconfirmed.spent_unconfirmed)
    elim found [ none ↦ fail inconsistent_store | some next ↦ recur next ]
]

-- `Store.removeConflict`. It calls itself for every spender of its credits; Go would overflow its
-- stack on a cycle of spends, and the model panics when the fuel is used up.
unfoldable pub remove_conflict : ℕ → RecordRef → M (Unit {0})
unfolding remove_spender unspend_input each each_indexed
remove_conflict zero r = crash
remove_conflict (suc fuel) r = do
  t ← try (get_record r)
  each_indexed (remove_spender (remove_conflict fuel) t.tx) 0 t.credits
  each unspend_input t.tx.msg_tx.tx_in
  modify (update_unconfirmed (λ u. record u { txs = erase t.tx.msg_tx.sha u.txs }))
  each (λ op. modify (update_unconfirmed (drop_previous op))) t.tx.msg_tx.tx_in

-- `Store.removeDoubleSpends`
unfoldable pub remove_double_spends : ℕ → Tx → M (Unit {0})
unfolding find_double_spend remove_conflict
remove_double_spends fuel tx = do
  ds ← gets (λ s. find_double_spend tx.msg_tx.tx_in s.unconfirmed.previous_outpoints)
  elim ds [ some r ↦ remove_conflict fuel r | none ↦ skip ]
