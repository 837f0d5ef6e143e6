-- ===== src/Keystore/Recent/Codec/RoundTrip.antt =====
-- The recent blocks that were written are read back.
use btcwallet.Prelude.{
  ℕ, ◌+◌, ◌-◌, ◌*◌, ◌^◌, ◌<◌, ◌≤◌, ◌≡◌, ap, false, List, [], ◌∷◌, ◌++◌, arith, length, All,
  replicate, length-append, length-replicate,
}
use btcwallet.Prelude.Int.{
  ℤ, neg_part, to_unsigned, to_signed, two_32, IsInt32, to_unsigned_lt32, wrap32_lem,
}
use mathlib.Core.Path.{subst}
use btcwallet.Errors.{ok}
use btcwallet.Bytes.{put_uint, length-put_uint}
use btcwallet.Reader.{read_full, read_uint, write_list}
use btcwallet.Reader.Laws.{
  Decodes, Decodes-eq, >>=-Decodes, last-Decodes, lift-Decodes, read_uint-Decodes,
  read_full-Decodes, read_times-Decodes, measure-Decodes,
}
use btcwallet.Keystore.Version.{Version, lt, vers_20_last_blocks}
use btcwallet.Keystore.Recent.{RecentBlocks, ShaHash}
use btcwallet.Keystore.Recent.Codec.{
  check_count, check_height, read_recent_blocks, read_recent, write_recent, check_space,
  read_unused_space, write_unused_space,
}

abbrev IsSha : ShaHash → Type 0
IsSha h = h < 256 ^ 32

-- The recent blocks of a key store that has seen a block.
pub record IsStorableRecent (rb : RecentBlocks) : Type 0 where
  pub few : length rb.hashes ≤ 20
  pub height_sign : neg_part rb.last_height ≡ 0
  pub height_fits : IsInt32 rb.last_height
  pub hashes_fit : All IsSha rb.hashes

abbrev recent_bytes : RecentBlocks → List ℕ
recent_bytes rb =
    put_uint 4 (length rb.hashes)
    ++ (put_uint 4 (to_unsigned two_32 rb.last_height) ++ write_list (put_uint 32) rb.hashes)

write_recent_lem :
    (rb : RecentBlocks) → IsStorableRecent rb → write_recent rb ≡ ok (recent_bytes rb)
unfolding write_recent
write_recent_lem rb h = ground arith

count_passes : (n : ℕ) → n ≤ 20 → check_count n ≡ ok tt
unfolding check_count
count_passes n h = ground arith

height_passes :
    (z : ℤ)
    → IsInt32 z
    → neg_part z ≡ 0
    → check_height (to_signed two_32 (to_unsigned two_32 z)) ≡ ok tt
unfolding check_height
height_passes z h k = rw (wrap32_lem z h) (ground arith)

read_recent_blocks-Decodes :
    (rb : RecentBlocks) → IsStorableRecent rb → Decodes read_recent_blocks (recent_bytes rb) rb
unfolding read_recent_blocks
read_recent_blocks-Decodes rb h =
    Decodes-eq
      (>>=-Decodes _ (read_uint-Decodes 4 (length rb.hashes) (omega (arith, h.few))) (
        lift-Decodes _ (count_passes _ h.few) (
          >>=-Decodes _ (read_uint-Decodes 4 _ (to_unsigned_lt32 rb.last_height)) (
            lift-Decodes _ (height_passes _ h.height_fits h.height_sign) (
              last-Decodes _ (
                read_times-Decodes (read_uint 32) (put_uint 32) IsSha rb.hashes
                  (read_uint-Decodes 32) h.hashes_fit))))))
      (ap (λ z. record rb { last_height = z }) (wrap32_lem rb.last_height h.height_fits))

length-hashes : (hs : List ShaHash) → length (write_list (put_uint 32) hs) ≡ 32 * length hs
unfolding write_list
length-hashes [] = omega arith
length-hashes (h ∷ hs) = omega (
  arith,
  length-append {0} (put_uint 32 h) (write_list (put_uint 32) hs),
  length-put_uint 32 h,
  length-hashes hs,
)

length-recent_bytes : (rb : RecentBlocks) → length (recent_bytes rb) ≡ 8 + 32 * length rb.hashes
length-recent_bytes rb = omega (
  arith,
  length-append (put_uint 4 (length rb.hashes))
      (put_uint 4 (to_unsigned two_32 rb.last_height) ++ write_list (put_uint 32) rb.hashes),
  length-append (put_uint 4 (to_unsigned two_32 rb.last_height))
      (write_list (put_uint 32) rb.hashes),
  length-put_uint 4 (length rb.hashes),
  length-put_uint 4 (to_unsigned two_32 rb.last_height),
  length-hashes rb.hashes,
)

module _ (rb : RecentBlocks) (h : IsStorableRecent rb) where
  abbrev filling : List ℕ
  filling = replicate (1024 - length (recent_bytes rb)) 0

  write_space : write_unused_space 1024 rb ≡ ok (recent_bytes rb ++ filling)
  unfolding write_unused_space
  write_space = rw (write_recent_lem rb h) (ground (arith, length-recent_bytes rb, h.few))

  filling-Decodes : Decodes (read_full (1024 - length (recent_bytes rb))) filling filling
  filling-Decodes =
      subst (λ n. Decodes (read_full n) filling filling)
        (length-replicate (1024 - length (recent_bytes rb)) 0) (read_full-Decodes filling)

  space_fits : check_space 1024 (length (recent_bytes rb)) ≡ ok tt
  unfolding check_space
  space_fits = ground (arith, length-recent_bytes rb, h.few)

  read_recent-Decodes :
      (v : Version)
      → lt v vers_20_last_blocks ≡ false
      → Decodes (read_recent v) (recent_bytes rb) rb
  unfolding read_recent
  read_recent-Decodes v new = rw new (read_recent_blocks-Decodes rb h)

  read_space :
      (v : Version)
      → lt v vers_20_last_blocks ≡ false
      → Decodes (read_unused_space 1024 v) (recent_bytes rb ++ filling) rb
  unfolding read_unused_space
  read_space v new =
      >>=-Decodes _ (measure-Decodes (read_recent-Decodes v new))
        (lift-Decodes _ space_fits (last-Decodes (λ bs. rb) filling-Decodes))

-- For at most 20 hashes, each of 32 bytes, at a height of an int32 that is not negative, and a version
-- that is not `LT` Vers20LastBlocks: `unusedSpace.WriteTo` writes bytes from which, with anything
-- behind them, `unusedSpace.ReadFromVersion` reads the same recent blocks and takes just those bytes.
pub read_unused_space-write_unused_space :
    (rb : RecentBlocks) (v : Version)
    → IsStorableRecent rb
    → lt v vers_20_last_blocks ≡ false
    → (bytes : List ℕ) × (write_unused_space 1024 rb ≡ ok bytes)
      × Decodes (read_unused_space 1024 v) bytes rb
read_unused_space-write_unused_space rb v h new =
    (recent_bytes rb ++ filling rb h, write_space rb h, read_space rb h v new)
