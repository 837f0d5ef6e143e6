-- ===== src/TxStore/Conflict/Detect.antt =====
-- Double spends are found through the map of the outpoints that unconfirmed transactions spend.
use btcwallet.Prelude.{
  ◌≡◌, refl, ◌∙◌, inl, inr, Bool, true, false, none, some, List, [], ◌∷◌, arith, if◌then◌else◌,
  length, Option-cases,
}
use btcwallet.Prelude.Map.{Map, lookup, insert, lookup-insert, nat_eq}
use btcwallet.TxStore.Types.{
  Store, Tx, OutPoint, RecordRef, out_point_eq, eqb_out_point, eqb_out_point_iff,
}
use btcwallet.TxStore.Insert.{set_previous, add_unconfirmed_record, unconfirmed_record_for_inserts}
use btcwallet.TxStore.Conflict.{find_double_spend}

unfoldable pub spends : OutPoint → List OutPoint → Bool
spends op [] = false
spends op (i ∷ ins) = if eqb_out_point i op then true else spends op ins

lookup-set_previous :
    (op : OutPoint) (ops : List OutPoint) (r : RecordRef) (m : Map OutPoint RecordRef)
    → lookup op (set_previous ops r m) ≡ (if spends op ops then some r else lookup op m)
unfolding set_previous spends
lookup-set_previous op [] r m = refl
lookup-set_previous op (i ∷ ops) r m =
    ground (arith, lookup-set_previous op ops r (insert i r m), lookup-insert i op r m)

found_of_lookup :
    (op : OutPoint) (ops : List OutPoint) (m : Map OutPoint RecordRef) (r : RecordRef)
    → spends op ops ≡ true
    → lookup op m ≡ some r
    → (r' : RecordRef) × (find_double_spend ops m ≡ some r')
unfolding find_double_spend spends
found_of_lookup op [] m r h l = absurd (cc)
found_of_lookup op (i ∷ ops) m r h l = elim (Option-cases (lookup i m)) [
  | inl missing ↦
      let (r', e) = found_of_lookup op ops m r (ground (arith, eqb_out_point_iff i op)) l in
      (r', ground (arith, missing, e))
  | inr (r', e) ↦ (r', ground (arith, e))
]

-- After a transaction that was not unconfirmed has become so, `findDoubleSpend` finds a record for
-- all inputs among which is an outpoint that the transaction spends.
pub find_double_spend-unconfirmed :
    (s : Store) (tx : Tx) (op : OutPoint) (ins : List OutPoint)
    → lookup tx.msg_tx.sha s.unconfirmed.txs ≡ none
    → spends op tx.msg_tx.tx_in ≡ true
    → spends op ins ≡ true
    → let (r, s') = unconfirmed_record_for_inserts tx s in
      (found : RecordRef) × (find_double_spend ins s'.unconfirmed.previous_outpoints ≡ some found)
unfolding unconfirmed_record_for_inserts add_unconfirmed_record
find_double_spend-unconfirmed s tx op ins new mine theirs =
    rw (new, unconfirmed_record_for_inserts)
      (found_of_lookup op ins _ (length s.records) theirs (
        lookup-set_previous op tx.msg_tx.tx_in (length s.records) s.unconfirmed.previous_outpoints
        ∙ rw mine refl))
