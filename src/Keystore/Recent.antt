-- ===== src/Keystore/Recent.antt =====
-- The recently seen blocks of a key store: `recentBlocks`, its iterator, and `SetSyncedWith`.
pub mod History
pub mod Refinement
pub mod Codec
use btcwallet.Prelude.{
  ℕ, zero, suc, ◌+◌, ◌-◌, Bool, true, false, ◌&&◌, Option, none, some, List, [], ◌∷◌, ◌++◌, ltb,
  ◌==◌, if◌then◌else◌, length, get_elem?, take, drop, map,
}
use btcwallet.Prelude.Int.{ℤ, pos, negsuc, minus_one, ◌+ℤ◌, ◌-ℤ◌, eqb_ℤ, ltb_ℤ, wrap32}

-- A hash is the number that its 32 bytes write, lowest byte first.
abbrev pub ShaHash : Type 0
ShaHash = ℕ

pub record BlockStamp : Type 0 where
  pub height : ℤ
  pub hash : ShaHash

-- The hashes are in order of height, and the last is that of the block at the last height.
pub record RecentBlocks : Type 0 where
  pub hashes : List ShaHash
  pub last_height : ℤ

abbrev pub max_recent : ℕ
max_recent = 20

-- `append`, or a shift to the left and a write at the end if there are 20 hashes.
unfoldable pub push_hash : ShaHash → List ShaHash → List ShaHash
push_hash h hs = if length hs == max_recent then drop 1 hs ++ (h ∷ []) else hs ++ (h ∷ [])

-- The test that the hash at an index of the slice, which may be out of range, is the given one.
abbrev pub saved_at : ℤ → ShaHash → List ShaHash → Option ℕ
saved_at (pos i) h hs = elim (get_elem? hs i) [
  | none ↦ none
  | some h' ↦ if h' == h then some i else none
]
saved_at (negsuc i) h hs = none

-- A block that is put at the end, after the hashes that are kept.
abbrev pub put_block : BlockStamp → List ShaHash → RecentBlocks
put_block b hs = record { hashes = push_hash b.hash hs; last_height = b.height }

-- The index at which the hash of a lower block would stand.
abbrev pub index_of : BlockStamp → RecentBlocks → ℤ
index_of b rb = pos (length rb.hashes) -ℤ pos 1 -ℤ wrap32 (rb.last_height -ℤ b.height)

-- `Store.SetSyncedWith` of a block.
unfoldable pub set_synced_with : BlockStamp → RecentBlocks → RecentBlocks
unfolding push_hash
set_synced_with b rb =
    if ltb_ℤ b.height rb.last_height
    then (elim (saved_at (index_of b rb) b.hash rb.hashes) [
      | some i ↦ record { hashes = take i rb.hashes; last_height = b.height }
      | none ↦ put_block b []
    ])
    else if eqb_ℤ b.height (wrap32 (rb.last_height +ℤ pos 1))
    then put_block b rb.hashes
    else put_block b []

-- A `blockIterator` is an index into the hashes.
abbrev pub BlockIterator : Type 0
BlockIterator = ℕ

-- `recentBlocks.NewIterator`
unfoldable pub new_iterator : RecentBlocks → Option BlockIterator
new_iterator rb =
    if eqb_ℤ rb.last_height minus_one
    then none
    else if length rb.hashes == 0
    then none
    else some (length rb.hashes - 1)

-- `Next` and `Prev`: `none` stands for false, where the iterator stays.
unfoldable pub next_block : RecentBlocks → BlockIterator → Option BlockIterator
next_block rb it = if ltb (it + 1) (length rb.hashes) then some (it + 1) else none

unfoldable pub prev_block : BlockIterator → Option BlockIterator
prev_block zero = none
prev_block (suc it) = some it

-- `BlockStamp`: an index out of range would be a panic.
unfoldable pub block_stamp : RecentBlocks → BlockIterator → Option BlockStamp
block_stamp rb it = elim (get_elem? rb.hashes it) [
  | none ↦ none
  | some h ↦ some (record {
    height = wrap32 (rb.last_height -ℤ wrap32 (pos (length rb.hashes) -ℤ pos 1 -ℤ pos it));
    hash = h;
  })
]
