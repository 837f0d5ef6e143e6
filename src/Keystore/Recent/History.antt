-- ===== src/Keystore/Recent/History.antt =====
-- `SetSyncedWith` as a bounded history: the blocks that an iterator gives, the newest first.
use btcwallet.Prelude.{
  ℕ, zero, suc, ◌-◌, ◌<◌, ◌≤◌, ◌≡◌, refl, ap, ◌∙◌, inl, inr, Option, none, some, List, arith, ltb,
  ◌==◌, if◌then◌else◌, length, get_elem?, Bool-cases, Option-cases,
}
use btcwallet.Prelude.Int.{ℤ, pos, pos_part, neg_part, ◌-ℤ◌, wrap32, wrap32_self, IsInt32, int_laws}
use btcwallet.Keystore.Recent.{
  BlockStamp, RecentBlocks, ShaHash, new_iterator, prev_block, block_stamp,
}

-- The iterator after a number of calls of `Prev`.
unfoldable pub prev_times : ℕ → Option ℕ → Option ℕ
prev_times zero it = it
prev_times (suc d) none = none
prev_times (suc d) (some it) = prev_times d (prev_block it)

-- The block that an iterator gives after `d` calls of `Prev`.
unfoldable pub block_back : RecentBlocks → ℕ → Option BlockStamp
unfolding prev_times
block_back rb d = elim (prev_times d (new_iterator rb)) [
  | none ↦ none
  | some it ↦ block_stamp rb it
]

-- At most 20 hashes, at a height of an int32 that is not negative.
pub record IsBounded (rb : RecentBlocks) : Type 0 where
  pub few : length rb.hashes ≤ 20
  pub height_sign : neg_part rb.last_height ≡ 0
  pub height_fits : pos_part rb.last_height < 2147483647

prev_times-none : (d : ℕ) → prev_times d none ≡ none
unfolding prev_times
prev_times-none zero = refl
prev_times-none (suc d) = refl

prev_times-inside : (d it : ℕ) → d ≤ it → prev_times d (some it) ≡ some (it - d)
unfolding prev_times prev_block
prev_times-inside zero it h = ap some (omega arith)
prev_times-inside (suc d) zero h = absurd (omega arith)
prev_times-inside (suc d) (suc it) h = prev_times-inside d it (omega arith) ∙ ap some (omega arith)

prev_times-outside : (d it : ℕ) → it < d → prev_times d (some it) ≡ none
unfolding prev_times prev_block
prev_times-outside zero it h = absurd (omega arith)
prev_times-outside (suc d) zero h = prev_times-none d
prev_times-outside (suc d) (suc it) h = prev_times-outside d it (omega arith)

-- The hash of the block that is `d` blocks below the newest.
abbrev pub hash_back : List ShaHash → ℕ → Option ShaHash
hash_back hs d = if ltb d (length hs) then get_elem? hs (length hs - 1 - d) else none

abbrev pub stamp_at : ℤ → Option ShaHash → Option BlockStamp
stamp_at height none = none
stamp_at height (some h) = some (record { height = height; hash = h })

back-IsInt32 : (m d : ℕ) → m < 2147483648 → d < 20 → IsInt32 (pos m -ℤ pos d)
unfolding ◌-ℤ◌
back-IsInt32 m d h k = ground arith

height_at :
    (n m d : ℕ)
    → n ≤ 20
    → m < 2147483648
    → d < n
    → wrap32 (pos m -ℤ wrap32 (pos n -ℤ pos 1 -ℤ pos (n - 1 - d))) ≡ pos m -ℤ pos d
height_at n m d h k l =
    let back : wrap32 (pos n -ℤ pos 1 -ℤ pos (n - 1 - d)) ≡ pos d =
      ap wrap32 (omega int_laws) ∙ wrap32_self (pos d) (omega arith, omega arith) in
    rw back (wrap32_self _ (back-IsInt32 m d k (omega arith)))

module _ (hs : List ShaHash) (m : ℕ) (few : length hs ≤ 20) (fits : m < 2147483648) where
  block_stamp_lem :
      (d : ℕ)
      → d < length hs
      → block_stamp (record { hashes = hs; last_height = pos m }) (length hs - 1 - d)
        ≡ stamp_at (pos m -ℤ pos d) (get_elem? hs (length hs - 1 - d))
  unfolding block_stamp
  block_stamp_lem d h = elim (Option-cases (get_elem? hs (length hs - 1 - d))) [
    | inl none_there ↦ rw (none_there, block_stamp) refl
    | inr (x, found) ↦ rw (found, block_stamp, height_at (length hs) m d few fits h) refl
  ]

  new_iterator_lem :
      new_iterator (record { hashes = hs; last_height = pos m })
      ≡ (if length hs == 0 then none else some (length hs - 1))
  unfolding new_iterator
  new_iterator_lem = ground arith

  pub block_back_inside :
      (d : ℕ)
      → d < length hs
      → block_back (record { hashes = hs; last_height = pos m }) d
        ≡ stamp_at (pos m -ℤ pos d) (get_elem? hs (length hs - 1 - d))
  unfolding block_back
  block_back_inside d h =
      let start : new_iterator (record { hashes = hs; last_height = pos m })
          ≡ some (length hs - 1) =
        new_iterator_lem ∙ ground arith in
      rw (block_back, start, prev_times-inside d (length hs - 1) (omega arith))
        (block_stamp_lem d h)

  pub block_back_outside :
      (d : ℕ) → length hs ≤ d → block_back (record { hashes = hs; last_height = pos m }) d ≡ none
  unfolding block_back
  block_back_outside d h = elim (Bool-cases (length hs == 0)) [
    | inl empty ↦ rw (block_back, new_iterator_lem, empty, prev_times-none d) refl
    | inr some_there ↦
        rw
          (
            block_back,
            new_iterator_lem,
            some_there,
            prev_times-outside d (length hs - 1) (ground arith),
          )
          refl
  ]
