-- ===== src/TxStore/Insert/InOrder.antt =====
-- `blockCollectionForInserts` of a block that no block of the store is above, and of one that is
-- in the store.
use btcwallet.Prelude.{
  ℕ, ◌≡◌, ◌≢◌, refl, ap, sym, ◌∙◌, inl, inr, false, none, some, get_elem?, length, Option-cases,
  get_elem?-lt, get_elem?-append_lt, get_elem?-append_end,
}
use btcwallet.Prelude.Int.{ℤ}
use btcwallet.Prelude.Map.{lookup, lookup-insert_self, lookup-insert_ne}
use btcwallet.TxStore.Types.{Store, Block, CollectionRef, ok, err, int_eq, missing_block}
use btcwallet.TxStore.Monad.{or_panic}
use btcwallet.TxStore.Lookup.{lookup_block}
use btcwallet.TxStore.Insert.{last_exceeds, height_of, add_collection, block_collection_for_inserts}
use btcwallet.TxStore.Insert.Index.{find_index-get}
use btcwallet.TxStore.Insert.Blocks.{
  IsIndexed, appended, add_collection_in_order, appended-IsIndexed, new_height,
}

pub lookup_block_at :
    (h : ℤ) (s : Store) (i : ℕ)
    → lookup h s.block_indexes ≡ some i
    → lookup_block h s ≡ or_panic (get_elem? s.blocks i)
unfolding lookup_block
lookup_block_at h s i e = rw (e, lookup_block) refl

lookup_block_missing :
    (h : ℤ) (s : Store) → lookup h s.block_indexes ≡ none → lookup_block h s ≡ err (missing_block h)
unfolding lookup_block
lookup_block_missing h s e = rw (e, lookup_block) refl

-- A height in the map is that of a block in the slice.
pub lookup_block_found :
    (h : ℤ) (s : Store) (i : ℕ)
    → IsIndexed s
    → lookup h s.block_indexes ≡ some i
    → (c : CollectionRef) × (get_elem? s.blocks i ≡ some c)
      × (height_of s.collections c ≡ h)
      × (lookup_block h s ≡ ok c)
lookup_block_found h s i v e =
    let (c, at, k) = find_index-get (height_of s.collections) h s.blocks i (sym (v.exact h) ∙ e) in
    (c, at, k, lookup_block_at h s i e ∙ ap or_panic at)

lookup_appended :
    (b : Block) (s : Store) → lookup_block b.height (appended b s) ≡ ok (length s.collections)
lookup_appended b s =
    lookup_block_at b.height (appended b s) (length s.blocks)
      (lookup-insert_self b.height (length s.blocks) s.block_indexes)
    ∙ ap or_panic (get_elem?-append_end s.blocks (length s.collections))

lookup_others :
    (h : ℤ) (b : Block) (s : Store)
    → IsIndexed s
    → b.height ≢ h
    → lookup_block h (appended b s) ≡ lookup_block h s
lookup_others h b s v ne =
    let same = lookup-insert_ne b.height h (length s.blocks) s.block_indexes ne in
    elim (Option-cases (lookup h s.block_indexes)) [
      | inl missing ↦
          lookup_block_missing h (appended b s) (same ∙ missing)
          ∙ sym (lookup_block_missing h s missing)
      | inr (i, e) ↦
          let (c, at, k, l) = lookup_block_found h s i v e in
          lookup_block_at h (appended b s) i (same ∙ e)
          ∙ ap or_panic (get_elem?-append_lt s.blocks _ i (get_elem?-lt s.blocks i at))
          ∙ sym (lookup_block_at h s i e)
    ]

for_inserts_present :
    (b : Block) (s : Store) (c : CollectionRef)
    → lookup_block b.height s ≡ ok c
    → block_collection_for_inserts b s ≡ (ok c, s)
unfolding block_collection_for_inserts
for_inserts_present b s c e = rw (e, block_collection_for_inserts) refl

pub for_inserts_missing :
    (b : Block) (s : Store)
    → lookup b.height s.block_indexes ≡ none
    → block_collection_for_inserts b s ≡ (ok (add_collection b s).0, (add_collection b s).1)
unfolding block_collection_for_inserts
for_inserts_missing b s e =
    rw (lookup_block_missing b.height s e, block_collection_for_inserts) refl

for_inserts_appended :
    (b : Block) (s : Store)
    → IsIndexed s
    → last_exceeds (height_of s.collections) b.height s.blocks ≡ false
    → lookup b.height s.block_indexes ≡ none
    → block_collection_for_inserts b s ≡ (ok (length s.collections), appended b s)
for_inserts_appended b s v o e =
    for_inserts_missing b s e ∙ ap (λ p. (ok p.0, p.1)) (add_collection_in_order b s v o)

-- For a store in order, and a block that is in it or that none of its blocks is above, the call
-- returns a collection of the block's height, leaves the store in order, and the lookup of the
-- height finds that collection.
pub block_collection_for_inserts_in_order :
    (b : Block) (s : Store)
    → IsIndexed s
    → last_exceeds (height_of s.collections) b.height s.blocks ≡ false
    → let (r, s') = block_collection_for_inserts b s in
      (c : CollectionRef) × (r ≡ ok c)
      × IsIndexed s'
      × (lookup_block b.height s' ≡ ok c)
      × (height_of s'.collections c ≡ b.height)
block_collection_for_inserts_in_order b s v o =
    elim (Option-cases (lookup b.height s.block_indexes)) [
      | inl missing ↦ rw (for_inserts_appended b s v o missing) (
        length s.collections,
        refl,
        appended-IsIndexed b s v o missing,
        lookup_appended b s,
        new_height s.collections b,
      )
      | inr (i, e) ↦
          let (c, at, k, l) = lookup_block_found b.height s i v e in
          rw (for_inserts_present b s c l) (c, refl, v, l, k)
    ]

-- For a store in order, and a block that is in it or that none of its blocks is above, every other
-- height is looked up as before.
pub block_collection_for_inserts_others :
    (b : Block) (s : Store) (h : ℤ)
    → IsIndexed s
    → last_exceeds (height_of s.collections) b.height s.blocks ≡ false
    → b.height ≢ h
    → lookup_block h (block_collection_for_inserts b s).1 ≡ lookup_block h s
block_collection_for_inserts_others b s h v o ne =
    elim (Option-cases (lookup b.height s.block_indexes)) [
      | inl missing ↦ rw (for_inserts_appended b s v o missing) (lookup_others h b s v ne)
      | inr (i, e) ↦
          let (c, at, k, l) = lookup_block_found b.height s i v e in
          rw (for_inserts_present b s c l) refl
    ]
