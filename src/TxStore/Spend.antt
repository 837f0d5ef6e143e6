-- ===== src/TxStore/Spend.antt =====
-- Credits, and the marking of spent outputs (txstore/tx.go).
pub mod Credits
use btcwallet.Prelude.{
  ℕ, zero, suc, ◌+◌, ◌-◌, Bool, true, false, ◌&&◌, Option, none, some, List, [], ◌∷◌, ◌++◌, map,
  get_elem?, set, replicate, ◌==◌, leb, length, if◌then◌else◌,
}
use btcwallet.Prelude.Int.{ℤ, pos, eqb_ℤ, minus_one, ◌+ℤ◌, ◌-ℤ◌, wrap64}
use btcwallet.Prelude.Map.{Map, lookup, insert, erase, nat_eq}
use btcwallet.TxStore.Types.{
  Store, Tx, TxRecord, TxHandle, CreditHandle, Credit, Debits, UnconfirmedStore, OutPoint,
  BlockTxKey, BlockOutputKey, RecordRef, Result, ok, err, panic, out_point_eq, output_key_eq,
  eqb_tx_key, inconsistent_store, duplicate_insert, output_missing, unmined_key,
}
use btcwallet.TxStore.Monad.{
  M, pure, fail, gets, try, modify, crash, skip, ◌>>=◌, ◌>>◌, then_try, or_panic, get_record,
  set_record, update_unconfirmed, set_spent_by, add_spendable, add_reward, sub_spendable,
  output_value, each,
}
use btcwallet.TxStore.Lookup.{lookup_block, lookup_block_tx}

-- `Credit.OutPoint`
unfoldable pub out_point : CreditHandle → Store → Result OutPoint
out_point c s =
    then_try (get_record c.tx.ref s)
      λ t. ok (record { hash = t.tx.msg_tx.sha; index = c.output_index })

-- `Credit.Amount`
unfoldable pub credit_amount : CreditHandle → Store → Result ℤ
credit_amount c s = then_try (get_record c.tx.ref s) λ t. output_value t c.output_index

-- `Credit.outputKey`
abbrev pub output_key : CreditHandle → BlockOutputKey
output_key c = record { block_tx_key = c.tx.key; output_index = c.output_index }

-- What `findPreviousCredits` finds of an output of an unconfirmed transaction.
unfoldable pub find_unmined_credit : OutPoint → Store → Result (Option CreditHandle)
find_unmined_credit op s = elim (lookup op.hash s.unconfirmed.txs) [
  | none ↦ ok none
  | some r ↦ then_try (get_record r s) λ t. elim (get_elem? t.credits op.index) [
    | none ↦ ok none
    | some none ↦ ok none
    | some (some c) ↦ elim (lookup op s.unconfirmed.spent_unconfirmed) [
      | some spender ↦ ok none
      | none ↦
          ok (some (record { tx = record { key = unmined_key; ref = r }; output_index = op.index }))
    ]
  ]
]

-- What one goroutine of `findPreviousCredits` sends: a credit, nothing, or an error.
unfoldable pub find_previous_credit : OutPoint → Store → Result (Option CreditHandle)
unfolding find_unmined_credit lookup_block_tx
find_previous_credit op s = elim (lookup op s.unspent) [
  | none ↦ find_unmined_credit op s
  | some key ↦
      then_try (lookup_block_tx key s)
        λ r. ok (some (record { tx = record { key = key; ref = r }; output_index = op.index }))
]

-- The results are received in the order of the inputs, and the goroutines only read.
unfoldable pub find_previous_credits : List OutPoint → Store → Result (List CreditHandle)
unfolding find_previous_credit
find_previous_credits [] s = ok []
find_previous_credits (op ∷ ops) s =
    let rest = find_previous_credits ops s in
    then_try (find_previous_credit op s)
      λ found. then_try rest λ cs. elim found [ none ↦ ok cs | some c ↦ ok (c ∷ cs) ]

abbrev pub is_unmined : BlockTxKey → Bool
is_unmined k = eqb_ℤ k.block_height minus_one

abbrev pub spend_unmined : OutPoint → RecordRef → UnconfirmedStore → UnconfirmedStore
spend_unmined op r u = record u { spent_unconfirmed = insert op r u.spent_unconfirmed }

abbrev pub spend_mined : OutPoint → BlockOutputKey → RecordRef → UnconfirmedStore → UnconfirmedStore
spend_mined op key r u = record u {
  spent_block_out_point_keys = insert op key u.spent_block_out_point_keys;
  spent_block_out_points = insert key r u.spent_block_out_points;
}

-- The spender `t` takes the mined credit `prev`, which is unspent; the amount joins the total.
unfoldable pub take_credit : CreditHandle → TxHandle → OutPoint → ℤ → M ℤ
unfolding set_spent_by credit_amount
take_credit prev t op total = do
  set_spent_by prev.tx.ref prev.output_index (some t.key)
  modify (λ s. record s { unspent = erase op s.unspent })
  (if is_unmined t.key
      then modify (update_unconfirmed (spend_mined op (output_key prev) t.ref))
      else skip)
  amount ← try (credit_amount prev)
  pure (wrap64 (total +ℤ amount))

-- One round of the loop of `markOutputsSpent`, from the total so far.
unfoldable pub mark_output_spent : CreditHandle → TxHandle → ℤ → M ℤ
unfolding out_point take_credit
mark_output_spent prev t total = do
  op ← try (out_point prev)
  if is_unmined prev.tx.key
      then (modify (update_unconfirmed (spend_unmined op t.ref)) >> pure total)
      else do
        rec ← try (get_record prev.tx.ref)
        elim (get_elem? rec.credits prev.output_index) [
          | none ↦ crash
          | some none ↦ crash
          | some (some c) ↦ elim c.spent_by [
            | some k ↦ if eqb_tx_key k t.key then pure total else fail inconsistent_store
            | none ↦ take_credit prev t op total
          ]
        ]

unfoldable pub mark_each_spent : List CreditHandle → TxHandle → ℤ → M ℤ
unfolding mark_output_spent
mark_each_spent [] t total = pure total
mark_each_spent (prev ∷ spent) t total = do
  total' ← mark_output_spent prev t total
  mark_each_spent spent t total'

-- `Store.markOutputsSpent`
unfoldable pub mark_outputs_spent : List CreditHandle → TxHandle → M ℤ
unfolding mark_each_spent lookup_block sub_spendable
mark_outputs_spent spent t = do
  total ← mark_each_spent spent t (pos 0)
  (if is_unmined t.key
      then skip
      else do b ← try (lookup_block t.key.block_height); sub_spendable b total)
  pure total

-- One round of the loop of `AddDebits` for an unconfirmed transaction.
unfoldable pub track_spend : TxHandle → CreditHandle → M (Unit {0})
unfolding out_point
track_spend t c = do
  op ← try (out_point c)
  if is_unmined c.tx.key
      then modify (update_unconfirmed (spend_unmined op t.ref))
      else modify (update_unconfirmed (spend_mined op (output_key c) t.ref))

-- The debits of a mined transaction keep the keys of what it spends, once.
unfoldable pub record_spends : TxHandle → List CreditHandle → M (Unit {0})
record_spends t spent = do
  rec ← try (get_record t.ref)
  elim rec.debits [
    | none ↦ crash
    | some d ↦ elim d.spends [
      | some ks ↦ skip
      | none ↦ modify (
          set_record t.ref
            (record rec { debits = some (record d { spends = some (map output_key spent) }) }))
    ]
  ]

-- The part of `AddDebits` for a record without debits: the credits found, or given, are marked.
unfoldable pub make_debits : TxHandle → List CreditHandle → M (List CreditHandle)
unfolding find_previous_credits mark_outputs_spent
make_debits t spent = do
  rec ← try (get_record t.ref)
  spent' ←
      try (λ s. elim spent [
        | [] ↦ find_previous_credits rec.tx.msg_tx.tx_in s
        | c ∷ cs ↦ ok (c ∷ cs)
      ])
  amount ← mark_outputs_spent spent' t
  now ← try (get_record t.ref)
  modify
      (set_record t.ref (record now { debits = some (record { amount = amount; spends = none }) }))
  pure spent'

-- `TxRecord.AddDebits`
unfoldable pub add_debits : TxHandle → List CreditHandle → M TxHandle
unfolding make_debits track_spend record_spends each
add_debits t spent = do
  rec ← try (get_record t.ref)
  spent' ← elim rec.debits [ none ↦ make_debits t spent | some d ↦ pure spent ]
  (if is_unmined t.key then each (track_spend t) spent' else record_spends t spent')
  pure t

-- `txRecord.setCredit`: the slice is made long enough first, and stays so on an error.
unfoldable pub extend_credits : ℕ → List (Option Credit) → List (Option Credit)
extend_credits index cs = cs ++ replicate (suc index - length cs) none

unfoldable pub set_credit : RecordRef → ℕ → Bool → Tx → M (Unit {0})
unfolding extend_credits
set_credit r index change tx = do
  t ← try (get_record r)
  let cs = extend_credits index t.credits
  modify (set_record r (record t { credits = cs }))
  elim (get_elem? cs index) [
    | some none ↦ modify (
        set_record r (record t {
          credits = set cs index (some (record { change = change; spent_by = none }));
        }))
    | some (some c) ↦
        if t.tx.msg_tx.sha == tx.msg_tx.sha then fail duplicate_insert else fail inconsistent_store
    | none ↦ crash
  ]

-- The amount of a new credit of a mined transaction joins its block's deltas.
unfoldable pub track_credit : TxHandle → ℕ → Tx → ℤ → M (Unit {0})
unfolding lookup_block add_spendable add_reward
track_credit t index tx amount = do
  b ← try (lookup_block t.key.block_height)
  modify (λ s. record s {
    unspent = insert (record { hash = tx.msg_tx.sha; index = index }) t.key s.unspent;
  })
  if eqb_ℤ tx.index (pos 0) then add_reward b amount else add_spendable b amount

-- `if err == ErrDuplicateInsert { return Credit{t, index}, nil }`, and otherwise the rest.
unfoldable pub or_duplicate :
    Result (Unit {0}) × Store → CreditHandle → M CreditHandle → Result CreditHandle × Store
or_duplicate (ok _, s) c rest = rest s
or_duplicate (err duplicate_insert, s) c rest = (ok c, s)
or_duplicate (err e, s) c rest = (err e, s)
or_duplicate (panic, s) c rest = (panic, s)

unfoldable pub credit_value : TxHandle → ℕ → Tx → M CreditHandle
unfolding track_credit
credit_value t index tx = do
  o ← try (λ s. or_panic (get_elem? tx.msg_tx.tx_out index))
  (if is_unmined t.key then skip else track_credit t index tx o.value)
  pure (record { tx = t; output_index = index })

-- `TxRecord.AddCredit`
unfoldable pub add_credit : TxHandle → ℕ → Bool → M CreditHandle
unfolding set_credit or_duplicate credit_value
add_credit t index change = do
  rec ← try (get_record t.ref)
  if leb (length rec.tx.msg_tx.tx_out) index then fail output_missing else λ s.
      or_duplicate (set_credit t.ref index change rec.tx s)
        (record { tx = t; output_index = index }) (credit_value t index rec.tx)
