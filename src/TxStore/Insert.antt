-- ===== src/TxStore/Insert.antt =====
-- Inserting blocks and transaction records in order (txstore/tx.go).
pub mod Index
pub mod Blocks
pub mod InOrder
pub mod OutOfOrder
use btcwallet.Prelude.{
  ℕ, zero, suc, ◌+◌, Bool, true, false, Option, none, some, List, [], ◌∷◌, ◌++◌, get_elem?, take,
  drop, length, if◌then◌else◌,
}
use btcwallet.Prelude.Int.{ℤ, pos, leb_ℤ, ltb_ℤ}
use btcwallet.Prelude.Map.{Map, lookup, insert}
use btcwallet.TxStore.Types.{
  Store, Tx, TxRecord, Block, BlockTxCollection, UnconfirmedStore, ShaHash, OutPoint, RecordRef,
  CollectionRef, Error, Result, ok, err, panic, int_eq, out_point_eq, new_record, missing_block,
  missing_block_tx,
}
use btcwallet.TxStore.Monad.{
  M, pure, gets, try, modify, ◌>>=◌, ◌>>◌, or_panic, get_record, set_record, get_collection,
  set_collection,
}
use btcwallet.TxStore.Lookup.{lookup_block}
use btcwallet.Prelude.Map.{nat_eq}

-- A slice of pointers that is kept sorted by a key, and the map from keys to slice indexes.
module _ (key : ℕ → ℤ) where
  -- `i := len(xs); for i != 0 && xs[i-1].key >= k { i-- }`
  unfoldable pub slot_for : List ℕ → ℤ → ℕ → ℕ
  slot_for xs k zero = zero
  slot_for xs k (suc i) = elim (get_elem? xs i) [
    | none ↦ suc i
    | some x ↦ elim (leb_ℤ k (key x)) [ true ↦ slot_for xs k i | false ↦ suc i ]
  ]

  -- `for i, b := range detached { indexes[b.key] = i + n }`
  unfoldable pub renumber : ℕ → List ℕ → Map ℤ ℕ → Map ℤ ℕ
  renumber n [] m = m
  renumber n (x ∷ xs) m = renumber (suc n) xs (insert (key x) n m)

  unfoldable pub last_exceeds : ℤ → List ℕ → Bool
  last_exceeds k [] = false
  last_exceeds k (x ∷ []) = ltb_ℤ k (key x)
  last_exceeds k (x ∷ y ∷ xs) = last_exceeds k (y ∷ xs)

  -- `append(xs[:i], x)` has room in the array of `xs`, and writes `x` where the slice `detached`,
  -- which shares the array, has its first element.
  unfoldable pub insert_before : ℕ → ℕ → List ℕ → Map ℤ ℕ → List ℕ × Map ℤ ℕ
  unfolding renumber
  insert_before x i xs m =
      let detached = x ∷ drop (suc i) xs in
      (take i xs ++ (x ∷ detached), renumber (suc i) detached (insert (key x) i m))

  unfoldable pub insert_indexed : ℕ → List ℕ → Map ℤ ℕ → List ℕ × Map ℤ ℕ
  unfolding last_exceeds slot_for insert_before
  insert_indexed x xs m =
      if last_exceeds (key x) xs
      then insert_before x (slot_for xs (key x) (length xs)) xs m
      else (xs ++ (x ∷ []), insert (key x) (length xs) m)

-- The height of a collection, and the index of a record's transaction.
abbrev pub height_of : List BlockTxCollection → CollectionRef → ℤ
height_of cs c = elim (get_elem? cs c) [ some b ↦ b.block.height | none ↦ pos 0 ]

abbrev pub tx_index_of : List TxRecord → RecordRef → ℤ
tx_index_of rs r = elim (get_elem? rs r) [ some t ↦ t.tx.index | none ↦ pos 0 ]

abbrev pub new_collection : Block → BlockTxCollection
new_collection b = record {
  block = b;
  amount_deltas = record { spendable = pos 0; reward = pos 0 };
  txs = [];
  tx_indexes = [];
}

-- The new collection takes the next free address, and is put into the slice and the map.
unfoldable pub add_collection : Block → Store → CollectionRef × Store
unfolding insert_indexed
add_collection b s =
    let c = length s.collections in
    let cs = s.collections ++ (new_collection b ∷ []) in
    let (blocks, indexes) = insert_indexed (height_of cs) c s.blocks s.block_indexes in
    (c, record s { collections = cs; blocks = blocks; block_indexes = indexes })

-- `Store.blockCollectionForInserts`
unfoldable pub block_collection_for_inserts : Block → M CollectionRef
unfolding add_collection lookup_block
block_collection_for_inserts b s = elim (lookup_block b.height s) [
  | ok c ↦ (ok c, s)
  | err e ↦ let (c, s') = add_collection b s in (ok c, s')
  | panic ↦ (panic, s)
]

-- The branch of `blockTxCollection.txRecordForInserts` that makes a record.
unfoldable pub add_tx_record : CollectionRef → BlockTxCollection → Tx → Store → RecordRef × Store
unfolding insert_indexed
add_tx_record c coll tx s =
    let r = length s.records in
    let rs = s.records ++ (new_record tx ∷ []) in
    let (txs, indexes) = insert_indexed (tx_index_of rs) r coll.txs coll.tx_indexes in
    (
      r,
      set_collection c (record coll { txs = txs; tx_indexes = indexes })
          (record s { records = rs }),
    )

-- `blockTxCollection.txRecordForInserts`
unfoldable pub tx_record_for_inserts : CollectionRef → Tx → M RecordRef
unfolding add_tx_record
tx_record_for_inserts c tx = do
  coll ← try (get_collection c)
  elim (lookup tx.index coll.tx_indexes) [
    | some i ↦ try (λ s. or_panic (get_elem? coll.txs i))
    | none ↦ λ s. let (r, s') = add_tx_record c coll tx s in (ok r, s')
  ]

-- `Store.blockTxRecordForInserts`
unfoldable pub block_tx_record_for_inserts : Tx → Block → M RecordRef
unfolding block_collection_for_inserts tx_record_for_inserts
block_tx_record_for_inserts tx b = do c ← block_collection_for_inserts b; tx_record_for_inserts c tx

-- `u.previousOutpoints[input.PreviousOutpoint] = r` for each input
unfoldable pub set_previous :
    List OutPoint → RecordRef → Map OutPoint RecordRef → Map OutPoint RecordRef
set_previous [] r m = m
set_previous (op ∷ ops) r m = set_previous ops r (insert op r m)

unfoldable pub add_unconfirmed_record : Tx → Store → RecordRef × Store
unfolding set_previous
add_unconfirmed_record tx s =
    let r = length s.records in
    let u = s.unconfirmed in
    (
      r,
      record s {
        records = s.records ++ (new_record tx ∷ []);
        unconfirmed = record u {
          txs = insert tx.msg_tx.sha r u.txs;
          previous_outpoints = set_previous tx.msg_tx.tx_in r u.previous_outpoints;
        };
      },
    )

-- `unconfirmedStore.txRecordForInserts`
unfoldable pub unconfirmed_record_for_inserts : Tx → M RecordRef
unfolding add_unconfirmed_record
unconfirmed_record_for_inserts tx s = elim (lookup tx.msg_tx.sha s.unconfirmed.txs) [
  | some r ↦ (ok r, s)
  | none ↦ let (r, s') = add_unconfirmed_record tx s in (ok r, s')
]
