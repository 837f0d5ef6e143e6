-- ===== src/Keystore/Recent/Refinement.antt =====
-- `SetSyncedWith` of the next block, seen through the iterator: the newest block is the given one,
-- and the others are those seen before, as far as 20 blocks go.
use btcwallet.Prelude.{
  ℕ, zero, suc, ◌+◌, ◌-◌, ◌<◌, ◌≤◌, ◌≡◌, refl, sym, ap, ◌∙◌, inl, inr, true, none, some, List, [],
  ◌∷◌, ◌++◌, arith, ltb, ◌==◌, if◌then◌else◌, length, get_elem?, take, drop, Bool-cases,
  length-append, length-drop, get_elem?-append_lt, get_elem?-append_end,
}
use btcwallet.Prelude.Int.{pos, pos_part, ◌+ℤ◌, ◌-ℤ◌, ltb_ℤ, wrap32, wrap32_self, int_laws}
use btcwallet.Keystore.Recent.{
  BlockStamp, RecentBlocks, ShaHash, push_hash, saved_at, index_of, set_synced_with,
}
use btcwallet.Keystore.Recent.History.{
  block_back, IsBounded, stamp_at, block_back_inside, block_back_outside,
}

-- The hashes that stay when one is pushed.
kept : List ShaHash → List ShaHash
kept hs = if length hs == 20 then drop 1 hs else hs

push_hash_lem : (h : ShaHash) (hs : List ShaHash) → push_hash h hs ≡ kept hs ++ (h ∷ [])
unfolding push_hash kept
push_hash_lem h hs = elim (Bool-cases (length hs == 20)) [
  | inl full ↦ rw (full, push_hash, kept) refl
  | inr more ↦ rw (more, push_hash, kept) refl
]

length-kept :
    (hs : List ShaHash)
    → length hs ≤ 20
    → length (kept hs) ≡ (if ltb 19 (length hs) then 19 else length hs)
unfolding kept
length-kept hs h = ground (arith, length-drop 1 hs)

get_elem?-drop_one : (hs : List ShaHash) (i : ℕ) → get_elem? (drop 1 hs) i ≡ get_elem? hs (suc i)
get_elem?-drop_one [] i = refl
get_elem?-drop_one (h ∷ hs) i = refl

kept_back :
    (hs : List ShaHash) (d : ℕ)
    → d < length (kept hs)
    → get_elem? (kept hs) (length (kept hs) - 1 - d) ≡ get_elem? hs (length hs - 1 - d)
unfolding kept
kept_back hs d h = elim (Bool-cases (length hs == 20)) [
  | inl full ↦
      rw (full, kept)
        (get_elem?-drop_one hs _
          ∙ ap (get_elem? hs) (omega (arith, length-drop 1 hs, (rw (full, kept) at h))))
  | inr more ↦ rw (more, kept) refl
]

length-push_hash :
    (h : ShaHash) (hs : List ShaHash) → length (push_hash h hs) ≡ suc (length (kept hs))
length-push_hash h hs = rw (push_hash_lem h hs) (omega (arith, length-append (kept hs) (h ∷ [])))

pushed_newest :
    (h : ShaHash) (hs : List ShaHash)
    → get_elem? (push_hash h hs) (length (push_hash h hs) - 1 - 0) ≡ some h
pushed_newest h hs =
    let last : length (push_hash h hs) - 1 - 0 ≡ length (kept hs) =
      omega (arith, length-push_hash h hs) in
    rw (last, push_hash_lem h hs) (get_elem?-append_end (kept hs) h)

pushed_older :
    (h : ShaHash) (hs : List ShaHash) (d : ℕ)
    → d < length (kept hs)
    → get_elem? (push_hash h hs) (length (push_hash h hs) - 1 - suc d)
      ≡ get_elem? hs (length hs - 1 - d)
pushed_older h hs d l =
    let at_kept : length (push_hash h hs) - 1 - suc d ≡ length (kept hs) - 1 - d =
      omega (arith, length-push_hash h hs) in
    rw (at_kept, push_hash_lem h hs)
      (get_elem?-append_lt (kept hs) (h ∷ []) (length (kept hs) - 1 - d) (omega arith)
        ∙ kept_back hs d l)

module _ (h : ShaHash) (hs : List ShaHash) (m : ℕ) (few : length hs ≤ 20)
    (fits : m < 2147483647) where
  abbrev before : RecentBlocks
  before = record { hashes = hs; last_height = pos m }

  abbrev after : RecentBlocks
  after = record { hashes = push_hash h hs; last_height = pos (suc m) }

  few_after : length (push_hash h hs) ≤ 20
  few_after = ground (arith, length-push_hash h hs, length-kept hs few)

  after_newest : block_back after 0 ≡ some (record { height = pos (suc m); hash = h })
  after_newest =
      block_back_inside (push_hash h hs) (suc m) few_after (omega arith) 0
        (omega (arith, length-push_hash h hs))
      ∙ rw (pushed_newest h hs) (ap (λ z. some (record { height = z; hash = h })) (omega int_laws))

  older_inside : (d : ℕ) → d < length (kept hs) → block_back after (suc d) ≡ block_back before d
  older_inside d l =
      block_back_inside (push_hash h hs) (suc m) few_after (omega arith) (suc d)
        (omega (arith, length-push_hash h hs))
      ∙ (rw (pushed_older h hs d l)
            (ap (λ z. stamp_at z (get_elem? hs (length hs - 1 - d))) (omega int_laws))
          ∙ sym (block_back_inside hs m few (omega arith) d (ground (arith, length-kept hs few))))

  older_outside : (d : ℕ) → length (kept hs) ≤ d → block_back after (suc d) ≡ none
  older_outside d l =
      block_back_outside (push_hash h hs) (suc m) few_after (omega arith) (suc d)
        (omega (arith, length-push_hash h hs))

  recent : (d : ℕ) → d < length (kept hs) → ltb d 19 ≡ true
  recent d l = ground (arith, length-kept hs few)

  empty_below :
      (d : ℕ) → length (kept hs) ≤ d → (if ltb d 19 then block_back before d else none) ≡ none
  empty_below d l = elim (Bool-cases (ltb d 19)) [
    | inl near ↦
        rw near (block_back_outside hs m few (omega arith) d (ground (arith, length-kept hs few)))
    | inr far ↦ rw far refl
  ]

  older : (d : ℕ) → block_back after (suc d) ≡ (if ltb d 19 then block_back before d else none)
  older d = elim (Bool-cases (ltb d (length (kept hs)))) [
    | inl near ↦ rw (recent d (ground arith)) (older_inside d (ground arith))
    | inr far ↦ older_outside d (ground arith) ∙ sym (empty_below d (ground arith))
  ]

set_synced_with_next :
    (b : BlockStamp) (hs : List ShaHash) (m : ℕ)
    → m < 2147483647
    → b.height ≡ pos (suc m)
    → set_synced_with b (record { hashes = hs; last_height = pos m })
      ≡ record { hashes = push_hash b.hash hs; last_height = b.height }
unfolding set_synced_with
set_synced_with_next b hs m fits next =
    let above : wrap32 (pos m +ℤ pos 1) ≡ pos (suc m) =
      ap wrap32 (omega int_laws) ∙ wrap32_self (pos (suc m)) (omega arith, omega arith) in
    rw (next, above) (ground arith)

synced_at :
    (b : BlockStamp) (hs : List ShaHash) (m : ℕ)
    → length hs ≤ 20
    → m < 2147483647
    → b.height ≡ pos (suc m)
    → let rb : RecentBlocks = record { hashes = hs; last_height = pos m } in
      (block_back (set_synced_with b rb) 0 ≡ some b)
      × ((d : ℕ)
          → block_back (set_synced_with b rb) (suc d)
            ≡ (if ltb d 19 then block_back rb d else none))
      × (length (set_synced_with b rb).hashes ≤ 20)
synced_at b hs m few fits next =
    rw (set_synced_with_next b hs m fits next, next)
      (
        after_newest b.hash hs m few fits,
        older b.hash hs m few fits,
        few_after b.hash hs m few fits,
      )

-- For recent blocks at a height of an int32 that is not negative and not the largest, at most 20,
-- and a block of the next height: after `SetSyncedWith`, the iterator gives that block first; what it
-- gives after `d + 1` calls of `Prev` is what it gave after `d` before, as long as `d < 19`, and
-- nothing from there on; and there are at most 20 hashes again.
pub set_synced_with_lem :
    (b : BlockStamp) (rb : RecentBlocks)
    → IsBounded rb
    → b.height ≡ rb.last_height +ℤ pos 1
    → (block_back (set_synced_with b rb) 0 ≡ some b)
      × ((d : ℕ)
          → block_back (set_synced_with b rb) (suc d)
            ≡ (if ltb d 19 then block_back rb d else none))
      × (length (set_synced_with b rb).hashes ≤ 20)
set_synced_with_lem b rb h next =
    let nonneg : rb.last_height ≡ pos (pos_part rb.last_height) = ground (arith, h.height_sign) in
    let same : rb ≡ record { hashes = rb.hashes; last_height = pos (pos_part rb.last_height) } =
      ap (λ z. record rb { last_height = z }) nonneg in
    rw same (
      synced_at b rb.hashes (pos_part rb.last_height) h.few h.height_fits
        (next ∙ rw nonneg (omega int_laws)))

module _ where
  length-take : (n : ℕ) (xs : List ShaHash) → n ≤ length xs → length (take n xs) ≡ n
  length-take zero xs h = refl
  length-take (suc n) [] h = absurd (omega arith)
  length-take (suc n) (x ∷ xs) h = ap suc (length-take n xs (omega arith))

  get_elem?-take : (n j : ℕ) (xs : List ShaHash) → j < n → get_elem? (take n xs) j ≡ get_elem? xs j
  get_elem?-take zero j xs h = absurd (omega arith)
  get_elem?-take (suc n) j [] h = refl
  get_elem?-take (suc n) zero (x ∷ xs) h = refl
  get_elem?-take (suc n) (suc j) (x ∷ xs) h = get_elem?-take n j xs (omega arith)

-- A saved block is found at its index.
saved_at_lem :
    (i : ℕ) (b : BlockStamp) (hs : List ShaHash)
    → get_elem? hs i ≡ some b.hash
    → saved_at (pos i) b.hash hs ≡ some i
saved_at_lem i b hs e = rw (saved_at, e) (ground arith)

saved_index :
    (n m i : ℕ)
    → n ≤ 20
    → m < 2147483647
    → i + 1 < n
    → n ≤ m + i + 1
    → pos n -ℤ pos 1 -ℤ wrap32 (pos m -ℤ pos (m + i + 1 - n)) ≡ pos i
saved_index n m i few fits l k =
    let back : wrap32 (pos m -ℤ pos (m + i + 1 - n)) ≡ pos (n - 1 - i) =
      ap wrap32 (omega int_laws) ∙ wrap32_self (pos (n - 1 - i)) (omega arith, omega arith) in
    rw back (omega int_laws)

module _ (hs : List ShaHash) (m i h : ℕ) (few : length hs ≤ 20) (fits : m < 2147483647)
    (inside : i + 1 < length hs) (mined : length hs ≤ m + i + 1)
    (saved : get_elem? hs i ≡ some h) where
  abbrev saved_block : BlockStamp
  saved_block = record { height = pos (m + i + 1 - length hs); hash = h }

  synced_back :
      set_synced_with saved_block (record { hashes = hs; last_height = pos m })
      ≡ record { hashes = take i hs; last_height = saved_block.height }
  unfolding set_synced_with
  synced_back =
      let lower : ltb_ℤ saved_block.height (pos m) ≡ true = ground arith in
      rw
        (
          set_synced_with,
          lower,
          index_of,
          saved_index (length hs) m i few fits inside mined,
          saved_at_lem i saved_block hs saved,
        )
        refl

  -- The first block that the iterator gives then has the saved block's height and the hash of the
  -- block below it.
  pub synced_back_newest :
      (j : ℕ)
      → i ≡ suc j
      → block_back (set_synced_with saved_block (record { hashes = hs; last_height = pos m })) 0
        ≡ stamp_at saved_block.height (get_elem? hs j)
  synced_back_newest j e =
      let kept_length : length (take i hs) ≡ i = length-take i hs (omega arith) in
      let last : length (take i hs) - 1 - 0 ≡ j = omega arith in
      rw synced_back (
        block_back_inside (take i hs) (m + i + 1 - length hs) (omega arith) (omega arith) 0
          (omega arith)
        ∙ rw (last, get_elem?-take i j hs (omega arith))
            (ap (λ z. stamp_at z (get_elem? hs j)) (omega int_laws)))
