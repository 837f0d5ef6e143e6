-- ===== src/TxStore/Query/Readable.antt =====
-- Stores whose references all stand: Records and Credits of txstore/tx.go do not panic.
use btcwallet.Prelude.{
  ℕ, zero, suc, ◌+◌, ◌<◌, ◌≤◌, ◌≡◌, refl, Option, none, some, List, [], ◌∷◌, ◌++◌, All, arith,
  length, get_elem?, map, All-append,
}
use btcwallet.TxStore.Types.{
  Store, TxHandle, CreditHandle, TxRecord, Credit, BlockTxCollection, RecordRef, CollectionRef,
  ShaHash, ok, unmined_key,
}
use btcwallet.TxStore.Query.{credit_indexes}
use btcwallet.TxStore.Query.Records.{block_records, mined_records, records, credits, credit_script}

get_elem?-some {ℓ} :
    {A : Type ℓ} (xs : List A) (i : ℕ) → i < length xs → (x : A) × (get_elem? xs i ≡ some x)
get_elem?-some [] i lt = absurd (omega (arith, lt))
get_elem?-some (x ∷ xs) zero lt = (x, refl)
get_elem?-some (x ∷ xs) (suc i) lt = get_elem?-some xs i (omega (arith, lt))

All-map_lt : (m n : ℕ) → m ≤ n → (is : List ℕ) → All (λ i. i < m) is → All (λ i. i < n) is
All-map_lt m n le [] h = tt
All-map_lt m n le (i ∷ is) (lt, h) = (omega (arith, lt, le), All-map_lt m n le is h)

-- Every reference stands, and no credit is of an output that the transaction does not have.
pub record IsReadable (s : Store) : Type 0 where
  pub credits_fit :
      (r : RecordRef) (t : TxRecord)
      → get_elem? s.records r ≡ some t
      → length t.credits ≤ length t.tx.msg_tx.tx_out
  pub blocks_stand : All (λ c. c < length s.collections) s.blocks
  pub txs_stand :
      (c : CollectionRef) (b : BlockTxCollection)
      → get_elem? s.collections c ≡ some b
      → All (λ r. r < length s.records) b.txs
  pub unconfirmed_stand : All (λ e. e.1 < length s.records) s.unconfirmed.txs

-- A sort keeps what holds of all elements.
abbrev pub KeepsAll : (List TxHandle → List TxHandle) → Type 1
KeepsAll sort = (P : TxHandle → Type 0) (ts : List TxHandle) → All P ts → All P (sort ts)

module _ (s : Store) where
  abbrev pub IsRead : CreditHandle → Type 0
  IsRead c = (script : List ℕ) × (credit_script s c ≡ ok script)

  abbrev pub IsReadRecord : TxHandle → Type 0
  IsReadRecord r = (cs : List CreditHandle) × (credits s r ≡ ok cs) × All IsRead cs

  abbrev Stands : TxHandle → Type 0
  Stands h = h.ref < length s.records

  block_records-Stands :
      (b : BlockTxCollection) (rs : List RecordRef)
      → All (λ r. r < length s.records) rs
      → (hs : List TxHandle) × (block_records s b rs ≡ ok hs) × All Stands hs
  unfolding block_records
  block_records-Stands b [] h = ([], refl, tt)
  block_records-Stands b (r ∷ rs) (lt, h) =
      let (t, at) = get_elem?-some s.records r lt in
      let (hs, eq, stand) = block_records-Stands b rs h in
      (
        record { key = record { block_index = t.tx.index; block_height = b.block.height }; ref = r }
            ∷ hs,
        rw (at, eq, block_records) refl,
        (lt, stand),
      )

  mined_records-Stands :
      (cs : List CollectionRef)
      → IsReadable s
      → All (λ c. c < length s.collections) cs
      → (hs : List TxHandle) × (mined_records s cs ≡ ok hs) × All Stands hs
  unfolding mined_records
  mined_records-Stands [] readable h = ([], refl, tt)
  mined_records-Stands (c ∷ cs) readable (lt, h) =
      let (b, at) = get_elem?-some s.collections c lt in
      let (xs, eq, stand) = block_records-Stands b b.txs (readable.txs_stand c b at) in
      let (ys, eq', stand') = mined_records-Stands cs readable h in
      (xs ++ ys, rw (at, eq, eq', mined_records) refl, All-append Stands xs ys stand stand')

  unconfirmed-Stands :
      (es : List (ShaHash × RecordRef))
      → All (λ e. e.1 < length s.records) es
      → All Stands (map (λ e. record { key = unmined_key; ref = e.1 }) es)
  unconfirmed-Stands [] h = tt
  unconfirmed-Stands (e ∷ es) (lt, h) = (lt, unconfirmed-Stands es h)

  credit_indexes-lt :
      (i : ℕ) (cs : List (Option Credit)) → All (λ j. j < i + length cs) (credit_indexes i cs)
  unfolding credit_indexes
  credit_indexes-lt i [] = tt
  credit_indexes-lt i (none ∷ cs) =
      All-map_lt (suc i + length cs) (i + suc (length cs)) (omega arith) (credit_indexes (suc i) cs)
        (credit_indexes-lt (suc i) cs)
  credit_indexes-lt i (some c ∷ cs) = (
    omega arith,
    All-map_lt (suc i + length cs) (i + suc (length cs)) (omega arith) (credit_indexes (suc i) cs)
        (credit_indexes-lt (suc i) cs),
  )

  outputs-IsRead :
      (h : TxHandle) (t : TxRecord) (is : List ℕ)
      → get_elem? s.records h.ref ≡ some t
      → All (λ i. i < length t.tx.msg_tx.tx_out) is
      → All IsRead (map (λ i. record { tx = h; output_index = i }) is)
  unfolding credit_script
  outputs-IsRead h t [] at lt = tt
  outputs-IsRead h t (i ∷ is) at (lt, rest) =
      let (o, at_i) = get_elem?-some t.tx.msg_tx.tx_out i lt in
      ((o.pk_script, rw (at, at_i, credit_script) refl), outputs-IsRead h t is at rest)

  handle-IsReadRecord : (h : TxHandle) → IsReadable s → Stands h → IsReadRecord h
  unfolding credits
  handle-IsReadRecord h readable lt =
      let (t, at) = get_elem?-some s.records h.ref lt in
      let is = credit_indexes 0 t.credits in
      (
        map (λ i. record { tx = h; output_index = i }) is,
        rw (at, credits) refl,
        outputs-IsRead h t is at (
            All-map_lt (0 + length t.credits) (length t.tx.msg_tx.tx_out)
              (omega (arith, readable.credits_fit h.ref t at)) is (credit_indexes-lt 0 t.credits)),
      )

  handles-IsReadRecord : (hs : List TxHandle) → IsReadable s → All Stands hs → All IsReadRecord hs
  handles-IsReadRecord [] readable h = tt
  handles-IsReadRecord (x ∷ xs) readable (lt, h) =
      (handle-IsReadRecord x readable lt, handles-IsReadRecord xs readable h)

  -- Records and Credits read all of a store whose references stand.
  pub records-IsReadRecord :
      (sort : List TxHandle → List TxHandle)
      → KeepsAll sort
      → IsReadable s
      → (rs : List TxHandle) × (records sort s ≡ ok rs) × All IsReadRecord rs
  unfolding records
  records-IsReadRecord sort keeps readable =
      let (mined, eq, stand) = mined_records-Stands s.blocks readable readable.blocks_stand in
      let unmined = map (λ e. record { key = unmined_key; ref = e.1 }) s.unconfirmed.txs in
      let stand' =
        keeps Stands _ (unconfirmed-Stands s.unconfirmed.txs readable.unconfirmed_stand) in
      (
        mined ++ sort unmined,
        rw (eq, records) refl,
        handles-IsReadRecord (mined ++ sort unmined) readable
            (All-append Stands mined (sort unmined) stand stand'),
      )
