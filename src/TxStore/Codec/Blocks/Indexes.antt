-- ===== src/TxStore/Codec/Blocks/Indexes.antt =====
-- The index map that `blockTxCollection.ReadFrom` makes anew.
use btcwallet.Prelude.{
  ℕ, zero, suc, ◌+◌, ◌≡◌, refl, inl, inr, ◌⊎◌, some, List, [], ◌∷◌, arith, get_elem?, Bool-cases,
}
use btcwallet.Prelude.Int.{ℤ, eqb_ℤ, eqb_ℤ_iff}
use btcwallet.Prelude.Map.{Map, lookup, insert, lookup-insert, lookup-insert_self}
use btcwallet.TxStore.Types.{TxRecord, int_eq}
use btcwallet.TxStore.Codec.Blocks.{index_txs}

-- An entry of the map is older than the loop, or points to a record with its key.
index_txs_sound :
    (n : ℕ) (ts : List TxRecord) (m : Map ℤ ℕ) (k : ℤ) (i : ℕ)
    → lookup k (index_txs n ts m) ≡ some i
    → (lookup k m ≡ some i)
      ⊎ ((j : ℕ) × (t : TxRecord) × (i ≡ n + j) × (get_elem? ts j ≡ some t) × (t.tx.index ≡ k))
unfolding index_txs
index_txs_sound n [] m k i e = inl e
index_txs_sound n (t ∷ ts) m k i e =
    elim (index_txs_sound (suc n) ts (insert t.tx.index n m) k i e) [
      | inr (j, u, at, found, same) ↦ inr (suc j, u, omega arith, found, same)
      | inl old ↦ elim (Bool-cases (eqb_ℤ t.tx.index k)) [
        | inl own ↦ inr (
          0,
          t,
          ground (arith, lookup-insert t.tx.index k n m),
          refl,
          (eqb_ℤ_iff t.tx.index k).0 own,
        )
        | inr other ↦ inl (ground (arith, lookup-insert t.tx.index k n m))
      ]
    ]

-- A key that is in the map stays in it.
index_txs-lookup :
    (n : ℕ) (ts : List TxRecord) (m : Map ℤ ℕ) (k : ℤ) (i : ℕ)
    → lookup k m ≡ some i
    → (i' : ℕ) × (lookup k (index_txs n ts m) ≡ some i')
unfolding index_txs
index_txs-lookup n [] m k i e = (i, e)
index_txs-lookup n (t ∷ ts) m k i e = elim (Bool-cases (eqb_ℤ t.tx.index k)) [
  | inl own ↦
      index_txs-lookup (suc n) ts (insert t.tx.index n m) k n
        (ground (arith, lookup-insert t.tx.index k n m))
  | inr other ↦
      index_txs-lookup (suc n) ts (insert t.tx.index n m) k i
        (ground (arith, lookup-insert t.tx.index k n m))
]

index_txs_complete :
    (n : ℕ) (ts : List TxRecord) (m : Map ℤ ℕ) (j : ℕ) (t : TxRecord)
    → get_elem? ts j ≡ some t
    → (i : ℕ) × (lookup t.tx.index (index_txs n ts m) ≡ some i)
unfolding index_txs
index_txs_complete n [] m j t e = absurd (cc)
index_txs_complete n (u ∷ ts) m zero t e =
    let same : t ≡ u = cc in
    rw same (
      index_txs-lookup (suc n) ts (insert u.tx.index n m) u.tx.index n
        (lookup-insert_self u.tx.index n m))
index_txs_complete n (u ∷ ts) m (suc j) t e =
    index_txs_complete (suc n) ts (insert u.tx.index n m) j t e

empty-lookup {ℓ} : {A : Type ℓ} (k : ℤ) (i : ℕ) → lookup k [] ≡ some i → A
unfolding lookup
empty-lookup k i e = absurd (cc)

-- The index of every record that was read is in the map that is made anew, and what it is mapped
-- to is the place of a record with that index in the slice.
pub index_txs_found :
    (ts : List TxRecord) (j : ℕ) (t : TxRecord)
    → get_elem? ts j ≡ some t
    → (i : ℕ) × (u : TxRecord) × (lookup t.tx.index (index_txs 0 ts []) ≡ some i)
      × (get_elem? ts i ≡ some u)
      × (u.tx.index ≡ t.tx.index)
index_txs_found ts j t e =
    let (i, l) = index_txs_complete 0 ts [] j t e in
    elim (index_txs_sound 0 ts [] t.tx.index i l) [
      | inl old ↦ empty-lookup t.tx.index i old
      | inr (j', u, at, found, same) ↦
          let place : j' ≡ i = omega arith in (i, u, l, rw (← place) found, same)
    ]
