-- ===== src/TxStore/Insert/OutOfOrder.antt =====
-- `blockCollectionForInserts` of a block below one that the store has: the write through the
-- array that the slices share.
use btcwallet.Prelude.{
  ℕ, zero, suc, ◌≡◌, ◌≢◌, refl, ap, sym, ◌∙◌, inl, inr, true, none, some, List, [], ◌∷◌, ◌++◌,
  arith, get_elem?, length, Option-cases,
}
use btcwallet.Prelude.Int.{ℤ}
use btcwallet.Prelude.Map.{lookup}
use btcwallet.TxStore.Types.{Store, Block, CollectionRef, ok, int_eq}
use btcwallet.TxStore.Monad.{or_panic}
use btcwallet.TxStore.Lookup.{lookup_block}
use btcwallet.TxStore.Insert.{
  last_exceeds, slot_for, insert_indexed, insert_before, height_of, new_collection, add_collection,
  block_collection_for_inserts,
}
use btcwallet.TxStore.Insert.Index.{
  find_index, get_elem?-find_index, insert_before_displaces, All-get,
}
use btcwallet.TxStore.Insert.Blocks.{
  IsIndexed, Agree, heights-Agree, IsSorted-cong, find_index-cong, last_exceeds-cong, new_height,
}
use btcwallet.TxStore.Insert.InOrder.{for_inserts_missing, lookup_block_at}

slot_for-cong :
    (f g : ℕ → ℤ) (xs : List ℕ) (k : ℤ) (n : ℕ)
    → Agree f g xs
    → slot_for f xs k n ≡ slot_for g xs k n
unfolding slot_for
slot_for-cong f g xs k zero h = refl
slot_for-cong f g xs k (suc n) h = elim (Option-cases (get_elem? xs n)) [
  | inl missing ↦ rw (missing, slot_for) refl
  | inr (x, at) ↦
      ground (arith, at, All-get (λ y. f y ≡ g y) xs n x h at, slot_for-cong f g xs k n h)
]

-- The store after a block that is put before the block at index `i`.
abbrev put_before : Block → ℕ → Store → Store
put_before b i s =
    let cs = s.collections ++ (new_collection b ∷ []) in
    let placed = insert_before (height_of cs) (length s.collections) i s.blocks s.block_indexes in
    record s { collections = cs; blocks = placed.0; block_indexes = placed.1 }

module _ (b : Block) (s : Store) (y : CollectionRef) (valid : IsIndexed s) where
  abbrev keys : ℕ → ℤ
  keys = height_of (s.collections ++ (new_collection b ∷ []))

  abbrev slot : ℕ
  slot = slot_for (height_of s.collections) s.blocks b.height (length s.blocks)

  agree : Agree (height_of s.collections) keys s.blocks
  agree = heights-Agree s.collections (new_collection b) s.blocks valid.refs

  add_collection_below :
      last_exceeds (height_of s.collections) b.height s.blocks ≡ true
      → add_collection b s ≡ (length s.collections, put_before b slot s)
  unfolding add_collection insert_indexed
  add_collection_below over =
      rw
        (
          new_height s.collections b,
          ← last_exceeds-cong _ _ b.height s.blocks agree,
          ← slot_for-cong _ _ s.blocks b.height (length s.blocks) agree,
          over,
        )
        refl

  -- The block in the slot has another height, since the map is exact.
  new_key_differs :
      lookup b.height s.block_indexes ≡ none
      → get_elem? s.blocks slot ≡ some y
      → keys (length s.collections) ≢ keys y
  new_key_differs new at e =
      let (found, later) =
        get_elem?-find_index (height_of s.collections) s.blocks slot y valid.sorted at in
      let same = All-get (λ c. height_of s.collections c ≡ keys c) s.blocks slot y agree at in
      let h : height_of s.collections y ≡ b.height = same ∙ sym e ∙ new_height s.collections b in
      let found' : find_index (height_of s.collections) b.height s.blocks ≡ some slot =
        rw h at found in
      cc (sym (valid.exact b.height) ∙ new, found')

  displaced :
      lookup b.height s.block_indexes ≡ none
      → get_elem? s.blocks slot ≡ some y
      → (lookup (keys y) (put_before b slot s).block_indexes ≡ some slot)
        × (get_elem? (put_before b slot s).blocks slot ≡ some (length s.collections))
        × (get_elem? (put_before b slot s).blocks (suc slot) ≡ some (length s.collections))
  displaced new at =
      insert_before_displaces keys (length s.collections) y slot s.blocks s.block_indexes
        (IsSorted-cong _ _ s.blocks agree valid.sorted)
        (λ k. valid.exact k ∙ find_index-cong _ _ k s.blocks agree) at (new_key_differs new at)

-- For a store in order, and a new block below its last: the block `y` that stands in the new
-- block's slot can no longer be found. A lookup of its height gives the new block's collection,
-- which stands in the slice twice.
pub block_collection_for_inserts_displaces :
    (b : Block) (s : Store) (y : CollectionRef)
    → IsIndexed s
    → lookup b.height s.block_indexes ≡ none
    → last_exceeds (height_of s.collections) b.height s.blocks ≡ true
    → get_elem? s.blocks (slot_for (height_of s.collections) s.blocks b.height (length s.blocks))
      ≡ some y
    → let i = slot_for (height_of s.collections) s.blocks b.height (length s.blocks) in
      let (r, s') = block_collection_for_inserts b s in
      (r ≡ ok (length s.collections))
      × (lookup_block (height_of s.collections y) s' ≡ ok (length s.collections))
      × (get_elem? s'.blocks i ≡ some (length s.collections))
      × (get_elem? s'.blocks (suc i) ≡ some (length s.collections))
block_collection_for_inserts_displaces b s y v new over at =
    let (l, p, q) = displaced b s y v new at in
    let same =
      All-get (λ c. height_of s.collections c ≡ keys b s y v c) s.blocks _ y (agree b s y v) at in
    rw (for_inserts_missing b s new, add_collection_below b s y v over)
      (refl, rw same (lookup_block_at _ _ _ l ∙ ap or_panic p), p, q)
