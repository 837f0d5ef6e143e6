-- ===== src/TxStore/Query.antt =====
-- Confirmations, balance, and the queries on records and credits (txstore/tx.go).
pub mod Confirmations
pub mod Records
pub mod Readable
use btcwallet.Prelude.{
  ℕ, zero, suc, ◌+◌, Bool, true, false, ◌&&◌, not, Option, none, some, List, [], ◌∷◌, ◌++◌, map,
  get_elem?, ◌==◌, ltb, length, if◌then◌else◌,
}
use btcwallet.Prelude.Int.{ℤ, pos, eqb_ℤ, leb_ℤ, ltb_ℤ, minus_one, ◌+ℤ◌, ◌-ℤ◌, wrap32, wrap64}
use btcwallet.Prelude.Map.{Map, lookup, nat_eq}
use btcwallet.TxStore.Types.{
  Store, Tx, TxRecord, TxHandle, CreditHandle, Credit, Debits, TxOut, OutPoint, Time, before,
  BlockTxKey, BlockOutputKey, BlockTxCollection, RecordRef, CollectionRef, Error, Result, ok, err,
  panic, output_key_eq, no_debits, unmined_key, elems, Block, missing_block, int_eq,
}
use btcwallet.TxStore.Monad.{then_try, or_panic, get_record, get_collection, output_value}
use btcwallet.TxStore.Lookup.{lookup_block, lookup_block_tx}

-- `confirms`
unfoldable pub confirms : ℤ → ℤ → ℤ
confirms tx_height cur_height =
    if eqb_ℤ tx_height minus_one
    then pos 0
    else if ltb_ℤ cur_height tx_height
    then pos 0
    else wrap32 (wrap32 (cur_height -ℤ tx_height) +ℤ pos 1)

-- `confirmed`
unfoldable pub confirmed : ℤ → ℤ → ℤ → Bool
unfolding confirms
confirmed minconf tx_height cur_height = leb_ℤ (wrap32 minconf) (confirms tx_height cur_height)

-- A loop that folds over a slice and may return an error.
unfoldable pub fold_try {ℓ κ} :
    {A : Type ℓ} {B : Type κ} → (B → A → Result B) → B → List A → Result B
fold_try f b [] = ok b
fold_try f b (x ∷ xs) = then_try (f b x) λ b'. fold_try f b' xs

module _ (min_conf chain_height : ℤ) (s : Store) where
  -- A spent output that counts as confirmed is taken off the balance.
  unfoldable pub debit_output : ℤ → BlockOutputKey → Result ℤ
  unfolding confirmed lookup_block_tx
  debit_output bal prev =
      if not (confirmed min_conf prev.block_tx_key.block_height chain_height)
      then ok bal
      else then_try (lookup_block_tx prev.block_tx_key s) λ r.
        then_try (get_record r s)
          λ t. then_try (output_value t prev.output_index) λ v. ok (wrap64 (bal -ℤ v))

  -- The spends of one transaction of a block that is not confirmed.
  unfoldable pub debit_record : ℤ → RecordRef → Result ℤ
  unfolding debit_output fold_try
  debit_record bal r =
      then_try (get_record r s)
        λ t. elim t.debits [ none ↦ ok bal | some d ↦ fold_try debit_output bal (elems d.spends) ]

  -- One block, given btcchain.CoinbaseMaturity.
  unfoldable pub add_block : ℤ → ℤ → CollectionRef → Result ℤ
  unfolding confirmed confirms debit_record fold_try
  add_block maturity bal c = then_try (get_collection c s) λ b.
      if confirmed min_conf b.block.height chain_height
      then (let spendable = wrap64 (bal +ℤ b.amount_deltas.spendable) in
          ok (
            if leb_ℤ maturity (confirms b.block.height chain_height)
            then wrap64 (spendable +ℤ b.amount_deltas.reward)
            else spendable))
      else fold_try debit_record bal b.txs

  unfoldable pub add_unmined_credits : TxRecord → ℤ → ℕ → List (Option Credit) → Result ℤ
  add_unmined_credits t bal i [] = ok bal
  add_unmined_credits t bal i (none ∷ cs) = add_unmined_credits t bal (suc i) cs
  add_unmined_credits t bal i (some c ∷ cs) = elim c.spent_by [
    | some k ↦ add_unmined_credits t bal (suc i) cs
    | none ↦ then_try (output_value t i) λ v. add_unmined_credits t (wrap64 (bal +ℤ v)) (suc i) cs
  ]

  unfoldable pub add_unmined_record : ℤ → RecordRef → Result ℤ
  unfolding add_unmined_credits
  add_unmined_record bal r = then_try (get_record r s) λ t. add_unmined_credits t bal 0 t.credits

  -- `Store.Balance`
  unfoldable pub balance : ℤ → Result ℤ
  unfolding fold_try add_block debit_output add_unmined_record
  balance maturity = then_try (fold_try (add_block maturity) (pos 0) s.blocks) λ mined.
      then_try (fold_try debit_output mined (map (λ e. e.0) s.unconfirmed.spent_block_out_points))
        λ bal.
          if eqb_ℤ min_conf (pos 0)
          then fold_try add_unmined_record bal (map (λ e. e.1) s.unconfirmed.txs)
          else ok bal

-- The first loop of `UnspentOutputs`: the credits of the unspent map.
unfoldable pub mined_unspent : Store → Map OutPoint BlockTxKey → Result (List CreditHandle)
unfolding lookup_block_tx
mined_unspent s [] = ok []
mined_unspent s ((op, key) ∷ m) =
    let rest = mined_unspent s m in
    then_try (lookup_block_tx key s) λ r.
      then_try rest
        λ cs. ok (record { tx = record { key = key; ref = r }; output_index = op.index } ∷ cs)

-- The second: the credits of a record that have no spender set.
unfoldable pub unspent_credits : TxHandle → ℕ → List (Option Credit) → List CreditHandle
unspent_credits t i [] = []
unspent_credits t i (none ∷ cs) = unspent_credits t (suc i) cs
unspent_credits t i (some c ∷ cs) =
    let rest = unspent_credits t (suc i) cs in
    elim c.spent_by [ some k ↦ rest | none ↦ record { tx = t; output_index = i } ∷ rest ]

unfoldable pub unmined_unspent : Store → List RecordRef → Result (List CreditHandle)
unfolding unspent_credits
unmined_unspent s [] = ok []
unmined_unspent s (r ∷ rs) =
    let rest = unmined_unspent s rs in
    then_try (get_record r s) λ t.
      then_try rest
        λ cs. ok (unspent_credits (record { key = unmined_key; ref = r }) 0 t.credits ++ cs)

-- `Store.UnspentOutputs`
unfoldable pub unspent_outputs : Store → Result (List CreditHandle)
unfolding mined_unspent unmined_unspent
unspent_outputs s = then_try (mined_unspent s s.unspent) λ mined.
    then_try (unmined_unspent s (map (λ e. e.1) s.unconfirmed.txs)) λ unmined. ok (mined ++ unmined)

-- `creditSlice.Less`. `Tx.Sha` returns a pointer into the transaction, so that two are equal if
-- the credits are of one record.
unfoldable pub credit_less : (RecordRef → Time) → CreditHandle → CreditHandle → Bool
credit_less received a b =
    if a.tx.ref == b.tx.ref
    then ltb a.output_index b.output_index
    else if eqb_ℤ a.tx.key.block_index minus_one && eqb_ℤ b.tx.key.block_index minus_one
    then before (received a.tx.ref) (received b.tx.ref)
    else if eqb_ℤ a.tx.key.block_index minus_one
    then false
    else if eqb_ℤ b.tx.key.block_index minus_one
    then true
    else if not (eqb_ℤ a.tx.key.block_height b.tx.key.block_height)
    then ltb_ℤ a.tx.key.block_height b.tx.key.block_height
    else ltb_ℤ a.tx.key.block_index b.tx.key.block_index

-- `Store.UnminedDebitTxs`, as the records whose transactions it returns.
unfoldable pub unmined_debit_txs : Store → List RecordRef
unmined_debit_txs s =
    map (λ e. e.1) s.unconfirmed.spent_block_out_points
    ++ map (λ e. e.1) s.unconfirmed.spent_unconfirmed

-- `TxRecord.Block`
unfoldable pub block_of : TxHandle → Store → Result (Option Block)
unfolding lookup_block
block_of t s = elim (lookup_block t.key.block_height s) [
  | ok c ↦ then_try (get_collection c s) λ b. ok (some b.block)
  | err e ↦ if eqb_ℤ t.key.block_height minus_one then ok none else err e
  | panic ↦ panic
]

-- `TxRecord.HasCredit`, for an index that is not negative.
unfoldable pub has_credit : TxRecord → ℕ → Bool
has_credit t i = elim (get_elem? t.credits i) [
  | none ↦ false
  | some none ↦ false
  | some (some c) ↦ true
]

-- `TxRecord.Credits`, as output indexes.
unfoldable pub credit_indexes : ℕ → List (Option Credit) → List ℕ
credit_indexes i [] = []
credit_indexes i (none ∷ cs) = credit_indexes (suc i) cs
credit_indexes i (some c ∷ cs) = i ∷ credit_indexes (suc i) cs

abbrev pub is_change : List (Option Credit) → ℕ → Bool
is_change cs i = elim (get_elem? cs i) [
  | none ↦ false
  | some none ↦ false
  | some (some c) ↦ c.change
]

unfoldable pub sum_outputs : Bool → List (Option Credit) → ℤ → ℕ → List TxOut → ℤ
sum_outputs ignore_change cs a i [] = a
sum_outputs ignore_change cs a i (o ∷ os) =
    sum_outputs ignore_change cs
      (if ignore_change && is_change cs i then a else wrap64 (a +ℤ o.value)) (suc i) os

-- `TxRecord.OutputAmount`
unfoldable pub output_amount : Bool → TxRecord → ℤ
unfolding sum_outputs
output_amount ignore_change t = sum_outputs ignore_change t.credits (pos 0) 0 t.tx.msg_tx.tx_out

-- `Debits.InputAmount` and `Debits.Fee`: a record with no debits is a nil dereference.
unfoldable pub input_amount : TxRecord → Result ℤ
input_amount t = elim t.debits [ none ↦ panic | some d ↦ ok d.amount ]

unfoldable pub fee : TxRecord → Result ℤ
unfolding input_amount output_amount
fee t = then_try (input_amount t) λ a. ok (wrap64 (a -ℤ output_amount false t))

-- `TxRecord.IsCoinbase`
unfoldable pub is_coinbase : TxHandle → Bool
is_coinbase t = not (eqb_ℤ t.key.block_height minus_one) && eqb_ℤ t.key.block_index (pos 0)
