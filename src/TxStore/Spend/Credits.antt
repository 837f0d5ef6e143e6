-- ===== src/TxStore/Spend/Credits.antt =====
-- Adding a credit to a record, and marking outputs spent.
use mathlib.Core.List.{append-nil}
use btcwallet.Prelude.{
  ℕ, zero, suc, ◌-◌, ◌<◌, ◌≤◌, ◌≡◌, ◌≢◌, refl, sym, ap, ◌∙◌, inl, inr, Bool, true, false, Option,
  none, some, List, [], ◌∷◌, ◌++◌, arith, All, length, get_elem?, set, replicate, Option-cases,
  Bool-cases, get_elem?-set_self, get_elem?-set_ne, get_elem?-lt, get_elem?-append_lt, length-set,
  set_same, if◌then◌else◌, ◌==◌,
}
use btcwallet.Prelude.Int.{ℤ, pos}
use btcwallet.TxStore.Types.{
  Store, UnconfirmedStore, Tx, TxRecord, TxHandle, CreditHandle, Credit, RecordRef, OutPoint, ok,
  err, duplicate_insert, inconsistent_store,
}
use btcwallet.TxStore.Monad.{get_record, set_record, or_panic, update_unconfirmed}
use btcwallet.TxStore.Query.{has_credit}
use btcwallet.TxStore.Spend.{
  extend_credits, set_credit, out_point, is_unmined, spend_unmined, mark_output_spent,
  mark_each_spent, mark_outputs_spent,
}

abbrev pub fresh : Bool → Option Credit
fresh change = some (record { change = change; spent_by = none })

get_elem?-extend :
    (index : ℕ) (cs : List (Option Credit)) (i : ℕ)
    → i < length cs
    → get_elem? (extend_credits index cs) i ≡ get_elem? cs i
unfolding extend_credits
get_elem?-extend index cs i h = get_elem?-append_lt cs (replicate (suc index - length cs) none) i h

get_elem?-replicate :
    (n i : ℕ) → i < n → get_elem? (replicate {A = Option Credit} n none) i ≡ some none
get_elem?-replicate zero i h = elim h [ ]
get_elem?-replicate (suc n) zero h = refl
get_elem?-replicate (suc n) (suc i) h = get_elem?-replicate n i (omega arith)

get_elem?-append_ge :
    (xs ys : List (Option Credit)) (i : ℕ)
    → length xs ≤ i
    → get_elem? (xs ++ ys) i ≡ get_elem? ys (i - length xs)
get_elem?-append_ge [] ys i h = ap (get_elem? ys) (omega arith)
get_elem?-append_ge (x ∷ xs) ys zero h = absurd (omega arith)
get_elem?-append_ge (x ∷ xs) ys (suc i) h =
    get_elem?-append_ge xs ys i (omega arith) ∙ ap (get_elem? ys) (omega arith)

get_elem?-none : (xs : List (Option Credit)) (i : ℕ) → get_elem? xs i ≡ none → length xs ≤ i
get_elem?-none [] i e = omega arith
get_elem?-none (x ∷ xs) zero e = absurd (cc)
get_elem?-none (x ∷ xs) (suc i) e = omega (arith, get_elem?-none xs i e)

extend_past :
    (index : ℕ) (cs : List (Option Credit))
    → length cs ≤ index
    → get_elem? (extend_credits index cs) index ≡ some none
unfolding extend_credits
extend_past index cs h =
    get_elem?-append_ge cs _ index h ∙ get_elem?-replicate (suc index - length cs) _ (omega arith)

-- Where there was no credit, the extended slice has a nil at the index.
extend_empty :
    (index : ℕ) (t : TxRecord)
    → has_credit t index ≡ false
    → get_elem? (extend_credits index t.credits) index ≡ some none
unfolding has_credit
extend_empty index t h = elim (Option-cases (get_elem? t.credits index)) [
  | inl past ↦ extend_past index t.credits (get_elem?-none t.credits index past)
  | inr (none, at) ↦ get_elem?-extend index t.credits index (get_elem?-lt t.credits index at) ∙ at
  | inr (some c, at) ↦ absurd (ground arith)
]

-- A credit is at hand: the slice is long enough and does not change.
extend_full :
    (index : ℕ) (cs : List (Option Credit)) {c : Credit}
    → get_elem? cs index ≡ some (some c)
    → extend_credits index cs ≡ cs
unfolding extend_credits
extend_full index cs at =
    let enough : suc index - length cs ≡ 0 = omega (arith, get_elem?-lt cs index at) in
    rw enough (append-nil cs)

set_credit_new_eq :
    (r : RecordRef) (index : ℕ) (change : Bool) (tx : Tx) (s : Store) (t : TxRecord)
    → get_elem? s.records r ≡ some t
    → has_credit t index ≡ false
    → set_credit r index change tx s ≡ (
      ok tt,
      set_record r
          (record t { credits = set (extend_credits index t.credits) index (fresh change) })
          (set_record r (record t { credits = extend_credits index t.credits }) s),
    )
unfolding set_credit
set_credit_new_eq r index change tx s t at none_yet =
    rw (at, set_credit) (rw (extend_empty index t none_yet) refl)

-- `setCredit` of an output that has no credit gives the record an unspent one with the change flag,
-- and every other element of the slice stays.
pub set_credit_new :
    (r : RecordRef) (index : ℕ) (change : Bool) (tx : Tx) (s : Store) (t : TxRecord) (j : ℕ)
    → get_elem? s.records r ≡ some t
    → has_credit t index ≡ false
    → j < length t.credits
    → j ≢ index
    → let (res, s') = set_credit r index change tx s in
      (res ≡ ok tt)
      × (t' : TxRecord) × (get_record r s' ≡ ok t')
      × (get_elem? t'.credits index ≡ some (fresh change))
      × (get_elem? t'.credits j ≡ get_elem? t.credits j)
set_credit_new r index change tx s t j at none_yet lt ne =
    let extended = extend_credits index t.credits in
    let first = record t { credits = extended } in
    let last = record t { credits = set extended index (fresh change) } in
    let room : r < length (set s.records r first) =
      omega (arith, length-set s.records r first, get_elem?-lt s.records r at) in
    rw (set_credit_new_eq r index change tx s t at none_yet) (
      refl,
      last,
      ap or_panic (get_elem?-set_self (set s.records r first) r last room),
      get_elem?-set_self extended index (fresh change)
          (get_elem?-lt extended index (extend_empty index t none_yet)),
      get_elem?-set_ne extended index j (fresh change) (λ e. ne (sym e))
          ∙ get_elem?-extend index t.credits j lt,
    )

-- `setCredit` of an output that has a credit leaves the store as it is, and returns
-- ErrDuplicateInsert for the same transaction, and ErrInconsistentStore for another.
set_credit_duplicate :
    (r : RecordRef) (index : ℕ) (change : Bool) (tx : Tx) (s : Store) (t : TxRecord) (c : Credit)
    → get_elem? s.records r ≡ some t
    → get_elem? t.credits index ≡ some (some c)
    → set_credit r index change tx s ≡ (
      if t.tx.msg_tx.sha == tx.msg_tx.sha then err duplicate_insert else err inconsistent_store,
      s,
    )
unfolding set_credit
set_credit_duplicate r index change tx s t c at has =
    let same : set_record r t s ≡ s =
      ap (λ l. record s { records = l }) (set_same s.records r at) in
    rw (at, set_credit)
      (rw (extend_full index t.credits has, has)
        (elim (Bool-cases (t.tx.msg_tx.sha == tx.msg_tx.sha)) [
          | inl own ↦ rw (own) (ap (λ s. (err duplicate_insert, s)) same)
          | inr other ↦ rw (other) (ap (λ s. (err inconsistent_store, s)) same)
        ]))

-- One round for an unconfirmed credit: its outpoint is recorded, and nothing is added to the total.
mark_output_spent-unmined :
    (prev : CreditHandle) (t : TxHandle) (total : ℤ) (s : Store) (op : OutPoint)
    → is_unmined prev.tx.key ≡ true
    → out_point prev s ≡ ok op
    → mark_output_spent prev t total s ≡ (ok total, update_unconfirmed (spend_unmined op t.ref) s)
unfolding mark_output_spent
mark_output_spent-unmined prev t total s op unmined at = rw (at, unmined, mark_output_spent) refl

-- A credit of an unconfirmed transaction whose record is at hand.
unfoldable pub IsUnmined : List TxRecord → CreditHandle → Type 0
IsUnmined records c =
    (is_unmined c.tx.key ≡ true) × (t : TxRecord) × (get_elem? records c.tx.ref ≡ some t)

out_point-unmined :
    (c : CreditHandle) (s : Store) {t : TxRecord}
    → get_elem? s.records c.tx.ref ≡ some t
    → out_point c s ≡ ok (record { hash = t.tx.msg_tx.sha; index = c.output_index })
unfolding out_point
out_point-unmined c s at = rw (at, out_point) refl

mark_each_spent-unmined :
    (spent : List CreditHandle) (t : TxHandle) (total : ℤ) (s : Store)
    → All (IsUnmined s.records) spent
    → (u : UnconfirmedStore) × (mark_each_spent spent t total s
        ≡ (ok total, record s { unconfirmed = u }))
      × (u.txs ≡ s.unconfirmed.txs)
unfolding mark_each_spent IsUnmined
mark_each_spent-unmined [] t total s h = (s.unconfirmed, refl, refl)
mark_each_spent-unmined (c ∷ spent) t total s ((unmined, rec, at), h) =
    let op : OutPoint = record { hash = rec.tx.msg_tx.sha; index = c.output_index } in
    let step = mark_output_spent-unmined c t total s op unmined (out_point-unmined c s at) in
    let (u, e, kept) =
      mark_each_spent-unmined spent t total (update_unconfirmed (spend_unmined op t.ref) s) h in
    (u, rw (step, mark_output_spent) e, kept)

-- When an unconfirmed transaction spends outputs of unconfirmed transactions only, `markOutputsSpent`
-- returns the amount 0, and it changes nothing but what is recorded of unconfirmed spends: no credit is marked as spent.
pub mark_outputs_spent_unmined :
    (spent : List CreditHandle) (t : TxHandle) (s : Store)
    → is_unmined t.key ≡ true
    → All (IsUnmined s.records) spent
    → (u : UnconfirmedStore) × (mark_outputs_spent spent t s
        ≡ (ok (pos 0), record s { unconfirmed = u }))
      × (u.txs ≡ s.unconfirmed.txs)
unfolding mark_outputs_spent
mark_outputs_spent_unmined spent t s unmined h =
    let (u, e, kept) = mark_each_spent-unmined spent t (pos 0) s h in
    (u, rw (e, mark_each_spent) (rw (unmined) refl), kept)
