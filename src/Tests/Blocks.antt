-- ===== src/Tests/Blocks.antt =====
-- `blockCollectionForInserts` at concrete stores.
use btcwallet.Prelude.{ℕ, suc, ◌≡◌, refl, ap, some, List, ◌++◌, All, get_elem?, arith}
use btcwallet.Prelude.Int.{pos, pos_part, minus_one, ◌<ℤ◌, ◌≤ℤ◌}
use btcwallet.Prelude.Map.{lookup, insert}
use btcwallet.TxStore.Types.{Store, Block, CollectionRef, ok, zero_time, new, int_eq}
use btcwallet.TxStore.Lookup.{lookup_block}
use btcwallet.TxStore.Insert.{slot_for, last_exceeds, height_of, block_collection_for_inserts}
use btcwallet.TxStore.Insert.Index.{find_index}
use btcwallet.TxStore.Insert.Blocks.{IsIndexed, appended, appended-IsIndexed}
use btcwallet.TxStore.Insert.InOrder.{
  block_collection_for_inserts_in_order, block_collection_for_inserts_others,
}
use btcwallet.TxStore.Rollback.{rollback}
use btcwallet.TxStore.Rollback.Blocks.{rollback_blocks}
use btcwallet.TxStore.Insert.OutOfOrder.{block_collection_for_inserts_displaces}

abbrev at_height : ℕ → Block
at_height h = record { hash = h; time = zero_time; height = pos h }

abbrev one_block : Store
one_block = appended (at_height 100) new

abbrev two_blocks : Store
two_blocks = appended (at_height 300) one_block

new-IsIndexed : IsIndexed new
unfolding find_index lookup
new-IsIndexed = record { refs = tt; sorted = tt; exact = λ k. refl }

one_block-IsIndexed : IsIndexed one_block
unfolding last_exceeds lookup
one_block-IsIndexed = appended-IsIndexed (at_height 100) new new-IsIndexed refl refl

two_blocks-IsIndexed : IsIndexed two_blocks
unfolding last_exceeds lookup insert
two_blocks-IsIndexed = appended-IsIndexed (at_height 300) one_block one_block-IsIndexed refl refl

block_collection_for_inserts_in_order_example :
    let (r, s') = block_collection_for_inserts (at_height 400) two_blocks in
    (c : CollectionRef) × (r ≡ ok c)
    × IsIndexed s'
    × (lookup_block (pos 400) s' ≡ ok c)
    × (height_of s'.collections c ≡ pos 400)
unfolding last_exceeds
block_collection_for_inserts_in_order_example =
    block_collection_for_inserts_in_order (at_height 400) two_blocks two_blocks-IsIndexed refl

block_collection_for_inserts_others_example :
    lookup_block (pos 100) (block_collection_for_inserts (at_height 400) two_blocks).1
    ≡ lookup_block (pos 100) two_blocks
unfolding last_exceeds
block_collection_for_inserts_others_example =
    block_collection_for_inserts_others (at_height 400) two_blocks (pos 100) two_blocks-IsIndexed
      refl (λ e. let k : 400 ≡ 100 = ap pos_part e in omega (arith, k))

-- A block between the two displaces the higher one.
block_collection_for_inserts_displaces_example :
    let (r, s') = block_collection_for_inserts (at_height 200) two_blocks in
    (r ≡ ok 2)
    × (lookup_block (pos 300) s' ≡ ok 2)
    × (get_elem? s'.blocks
          (slot_for (height_of two_blocks.collections) two_blocks.blocks (pos 200) 2)
        ≡ some 2)
    × (get_elem? s'.blocks
          (suc (slot_for (height_of two_blocks.collections) two_blocks.blocks (pos 200) 2))
        ≡ some 2)
unfolding last_exceeds lookup insert slot_for
block_collection_for_inserts_displaces_example =
    block_collection_for_inserts_displaces (at_height 200) two_blocks 1 two_blocks-IsIndexed refl
      refl refl

rollback_blocks_example :
    let s' = (rollback minus_one (pos 200) two_blocks).1 in
    (detached : List CollectionRef) × (s'.blocks ++ detached ≡ two_blocks.blocks)
    × All (λ c. height_of s'.collections c <ℤ pos 200) s'.blocks
    × All (λ c. pos 200 ≤ℤ height_of s'.collections c) detached
rollback_blocks_example = rollback_blocks minus_one (pos 200) two_blocks two_blocks-IsIndexed.sorted
