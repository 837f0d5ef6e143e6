-- ===== src/TxStore/Monad.antt =====
-- A call on the store: it returns a value or an error, or panics, and leaves a store. What was
-- written before an error stays written.
pub mod Frame
use btcwallet.Prelude.{
  ℕ, zero, suc, Bool, true, false, Option, none, some, List, [], ◌∷◌, get_elem?, set, ltb, length,
}
use btcwallet.Prelude.Int.{ℤ, ◌+ℤ◌, ◌-ℤ◌, wrap64}
use btcwallet.TxStore.Types.{
  Store, TxRecord, BlockTxKey, BlockTxCollection, UnconfirmedStore, RecordRef, CollectionRef, Error,
  Result, ok, err, panic,
}

abbrev pub M : Type 0 → Type 0
M A = Store → Result A × Store

module _ {A : Type 0} where
  abbrev pub pure : A → M A
  pure a s = (ok a, s)

  abbrev pub fail : Error → M A
  fail e s = (err e, s)

  abbrev pub crash : M A
  crash s = (panic, s)

  abbrev pub gets : (Store → A) → M A
  gets f s = (ok (f s), s)

  -- A lookup that changes nothing.
  abbrev pub try : (Store → Result A) → M A
  try f s = (f s, s)

  -- An index or a pointer that Go checks.
  abbrev pub or_panic : Option A → Result A
  or_panic none = panic
  or_panic (some a) = ok a

-- A call goes on if there was no error.
abbrev pub continue_with : {A B : Type 0} → Result A × Store → (A → M B) → Result B × Store
continue_with p f = elim p.0 [ ok a ↦ f a p.1 | err e ↦ (err e, p.1) | panic ↦ (panic, p.1) ]

infixl 5 ◌>>=◌ ◌>>◌
abbrev pub ◌>>=◌ : {A B : Type 0} → M A → (A → M B) → M B
◌>>=◌ m f s = continue_with (m s) f

abbrev pub ◌>>◌ : {A B : Type 0} → M A → M B → M B
m >> k = m >>= λ _. k

abbrev pub modify : (Store → Store) → M (Unit {0})
modify f s = (ok tt, f s)

-- A chain of lookups.
abbrev pub then_try {ℓ κ} : {A : Type ℓ} {B : Type κ} → Result A → (A → Result B) → Result B
then_try (ok a) f = f a
then_try (err e) f = err e
then_try panic f = panic

abbrev pub get_record : RecordRef → Store → Result TxRecord
get_record r s = or_panic (get_elem? s.records r)

abbrev pub set_record : RecordRef → TxRecord → Store → Store
set_record r t s = record s { records = set s.records r t }

abbrev pub get_collection : CollectionRef → Store → Result BlockTxCollection
get_collection c s = or_panic (get_elem? s.collections c)

abbrev pub set_collection : CollectionRef → BlockTxCollection → Store → Store
set_collection c b s = record s { collections = set s.collections c b }

abbrev pub update_unconfirmed : (UnconfirmedStore → UnconfirmedStore) → Store → Store
update_unconfirmed f s = record s { unconfirmed = f s.unconfirmed }

-- `for _, x := range xs { f(x) }`, where the body may return an error.
unfoldable pub each {ℓ} : {A : Type ℓ} → (A → M (Unit {0})) → List A → M (Unit {0})
each f [] = pure tt
each f (x ∷ xs) = f x >> each f xs

-- The same with the index, which counts from `n`.
unfoldable pub each_indexed {ℓ} : {A : Type ℓ} → (ℕ → A → M (Unit {0})) → ℕ → List A → M (Unit {0})
each_indexed f n [] = pure tt
each_indexed f n (x ∷ xs) = f n x >> each_indexed f (suc n) xs

-- `r.credits[i].spentBy = k`
unfoldable pub set_spent_by : RecordRef → ℕ → Option BlockTxKey → M (Unit {0})
set_spent_by r i k = do
  t ← try (get_record r)
  elim (get_elem? t.credits i) [
    | some (some c) ↦
        modify
          (set_record r (record t { credits = set t.credits i (some (record c { spent_by = k })) }))
    | some none ↦ crash
    | none ↦ crash
  ]

-- `b.amountDeltas.Spendable += v`, and the same of the reward.
unfoldable pub add_spendable : CollectionRef → ℤ → M (Unit {0})
add_spendable c v = do
  b ← try (get_collection c)
  let d = b.amount_deltas
  modify (
      set_collection c
        (record b { amount_deltas = record d { spendable = wrap64 (d.spendable +ℤ v) } }))

unfoldable pub add_reward : CollectionRef → ℤ → M (Unit {0})
add_reward c v = do
  b ← try (get_collection c)
  let d = b.amount_deltas
  modify
      (set_collection c (record b { amount_deltas = record d { reward = wrap64 (d.reward +ℤ v) } }))

-- `b.amountDeltas.Spendable -= v`
unfoldable pub sub_spendable : CollectionRef → ℤ → M (Unit {0})
sub_spendable c v = do
  b ← try (get_collection c)
  let d = b.amount_deltas
  modify (
      set_collection c
        (record b { amount_deltas = record d { spendable = wrap64 (d.spendable -ℤ v) } }))

-- The transaction and the value of an output, `TxOut[i].Value`.
abbrev pub output_value : TxRecord → ℕ → Result ℤ
output_value t i = then_try (or_panic (get_elem? t.tx.msg_tx.tx_out i)) λ o. ok o.value

abbrev pub skip : M (Unit {0})
skip = pure tt
