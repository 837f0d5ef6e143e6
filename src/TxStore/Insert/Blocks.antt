-- ===== src/TxStore/Insert/Blocks.antt =====
-- `blockCollectionForInserts` on stores whose blocks are in order.
use btcwallet.Prelude.{
  ℕ, ◌<◌, ◌≡◌, refl, ◌∙◌, false, none, List, [], ◌∷◌, ◌++◌, arith, All, length, length-append,
  All-append, get_elem?-append_lt, get_elem?-append_end,
}
use btcwallet.Prelude.Int.{ℤ, ◌<ℤ◌}
use btcwallet.Prelude.Map.{lookup, insert}
use btcwallet.TxStore.Types.{Store, Block, BlockTxCollection, int_eq}
use btcwallet.TxStore.Insert.{
  last_exceeds, insert_indexed, height_of, new_collection, add_collection,
}
use btcwallet.TxStore.Insert.Index.{find_index, IsSorted, IsExact, append-IsExact, append-IsSorted}

-- The blocks are in order of height, each height once, and the map has exactly their indexes.
pub record IsIndexed (s : Store) : Type 0 where
  pub refs : All (λ c. c < length s.collections) s.blocks
  pub sorted : IsSorted (height_of s.collections) s.blocks
  pub exact : IsExact (height_of s.collections) s.blocks s.block_indexes

-- Two keys that agree on a slice.
abbrev pub Agree : (ℕ → ℤ) → (ℕ → ℤ) → List ℕ → Type 0
Agree f g xs = All (λ x. f x ≡ g x) xs

module _ (f g : ℕ → ℤ) where
  All-lt_cong :
      (a b : ℤ) (xs : List ℕ)
      → a ≡ b
      → Agree f g xs
      → All (λ y. a <ℤ f y) xs
      → All (λ y. b <ℤ g y) xs
  All-lt_cong a b [] e h s = tt
  All-lt_cong a b (x ∷ xs) e h s = (rw (← e, ← h.0) s.0, All-lt_cong a b xs e h.1 s.1)

  pub IsSorted-cong : (xs : List ℕ) → Agree f g xs → IsSorted f xs → IsSorted g xs
  IsSorted-cong [] h s = tt
  IsSorted-cong (x ∷ xs) h s = (All-lt_cong (f x) (g x) xs h.0 h.1 s.0, IsSorted-cong xs h.1 s.1)

  pub find_index-cong : (k : ℤ) (xs : List ℕ) → Agree f g xs → find_index f k xs ≡ find_index g k xs
  unfolding find_index
  find_index-cong k [] h = refl
  find_index-cong k (x ∷ xs) h = rw (h.0, find_index-cong k xs h.1) refl

  pub last_exceeds-cong :
      (k : ℤ) (xs : List ℕ) → Agree f g xs → last_exceeds f k xs ≡ last_exceeds g k xs
  unfolding last_exceeds
  last_exceeds-cong k [] h = refl
  last_exceeds-cong k (x ∷ []) h = rw h.0 refl
  last_exceeds-cong k (x ∷ y ∷ xs) h = last_exceeds-cong k (y ∷ xs) h.1

-- A new collection leaves the heights of the old ones.
pub heights-Agree :
    (cs : List BlockTxCollection) (b : BlockTxCollection) (xs : List ℕ)
    → All (λ c. c < length cs) xs
    → Agree (height_of cs) (height_of (cs ++ (b ∷ []))) xs
heights-Agree cs b [] h = tt
heights-Agree cs b (x ∷ xs) h =
    (rw (get_elem?-append_lt cs (b ∷ []) x h.0, height_of) refl, heights-Agree cs b xs h.1)

pub new_height :
    (cs : List BlockTxCollection) (b : Block)
    → height_of (cs ++ (new_collection b ∷ [])) (length cs) ≡ b.height
new_height cs b = rw (get_elem?-append_end cs (new_collection b), height_of) refl

All-lt_mono : (n m : ℕ) (xs : List ℕ) → n < m → All (λ c. c < n) xs → All (λ c. c < m) xs
All-lt_mono n m [] h a = tt
All-lt_mono n m (x ∷ xs) h a = (omega arith, All-lt_mono n m xs h a.1)

-- The store after a block that is appended.
abbrev pub appended : Block → Store → Store
appended b s = record s {
  collections = s.collections ++ (new_collection b ∷ []);
  blocks = s.blocks ++ (length s.collections ∷ []);
  block_indexes = insert b.height (length s.blocks) s.block_indexes;
}

module _ (b : Block) (s : Store) (valid : IsIndexed s)
    (in_order : last_exceeds (height_of s.collections) b.height s.blocks ≡ false) where
  abbrev heights : ℕ → ℤ
  heights = height_of (s.collections ++ (new_collection b ∷ []))

  agree : Agree (height_of s.collections) heights s.blocks
  agree = heights-Agree s.collections (new_collection b) s.blocks valid.refs

  pub add_collection_in_order : add_collection b s ≡ (length s.collections, appended b s)
  unfolding add_collection insert_indexed
  add_collection_in_order =
      rw (new_height s.collections b, ← last_exceeds-cong _ _ b.height s.blocks agree, in_order)
        refl

  new_key :
      lookup b.height s.block_indexes ≡ none
      → find_index heights (heights (length s.collections)) s.blocks ≡ none
  new_key new =
      rw
        (
          new_height s.collections b,
          ← find_index-cong _ _ b.height s.blocks agree,
          ← valid.exact b.height,
        )
        new

  appended-IsExact :
      lookup b.height s.block_indexes ≡ none
      → IsExact heights (appended b s).blocks (appended b s).block_indexes
  appended-IsExact new = rw (new_height s.collections b) at (
      append-IsExact heights (length s.collections) s.blocks s.block_indexes
        (λ k. valid.exact k ∙ find_index-cong _ _ k s.blocks agree) (new_key new))

  pub appended-IsIndexed : lookup b.height s.block_indexes ≡ none → IsIndexed (appended b s)
  appended-IsIndexed new = record {
    refs =
        All-append _ s.blocks (length s.collections ∷ [])
          (All-lt_mono (length s.collections) _ s.blocks
            (omega (arith, length-append {0} s.collections (new_collection b ∷ []))) valid.refs)
          (omega (arith, length-append {0} s.collections (new_collection b ∷ [])), tt);
    sorted =
        append-IsSorted heights (length s.collections) s.blocks
          (IsSorted-cong _ _ s.blocks agree valid.sorted)
          (rw (new_height s.collections b, ← last_exceeds-cong _ _ b.height s.blocks agree)
            in_order)
          (new_key new);
    exact = appended-IsExact new;
  }
