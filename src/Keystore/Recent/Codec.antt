-- ===== src/Keystore/Recent/Codec.antt =====
-- recentBlocks: ReadFromVersion, ReadFrom and WriteTo, in the space that Armory leaves unused.
pub mod RoundTrip
use btcwallet.Prelude.{
  ℕ, ◌+◌, ◌-◌, Bool, true, false, List, [], ◌∷◌, ◌++◌, ltb, ◌==◌, not, ◌&&◌, if◌then◌else◌, length,
  replicate,
}
use btcwallet.Prelude.Int.{ℤ, pos, minus_one, eqb_ℤ, ltb_ℤ, to_unsigned, to_signed, two_32}
use btcwallet.Errors.{
  Result, ok, err, panic, keystore, too_many_blocks, negative_height, unused_space,
}
use btcwallet.Bytes.{put_uint}
use btcwallet.Reader.{
  Reader, pure, lift, ◌>>=◌, read_full, read_uint, read_times, measure, write_list,
}
use btcwallet.Keystore.Version.{Version, lt, vers_20_last_blocks}
use btcwallet.Keystore.Recent.{RecentBlocks, ShaHash, max_recent}

unfoldable pub check_count : ℕ → Result (Unit {0})
check_count n = if ltb max_recent n then err (keystore too_many_blocks) else ok tt

unfoldable pub check_height : ℤ → Result (Unit {0})
check_height h = if ltb_ℤ h (pos 0) then err (keystore negative_height) else ok tt

-- `recentBlocks.ReadFrom`
unfoldable pub read_recent_blocks : Reader RecentBlocks
unfolding check_count check_height
read_recent_blocks = do
  n_blocks ← read_uint 4
  few ← lift (check_count n_blocks)
  height ← read_uint 4
  mined ← lift (check_height (to_signed two_32 height))
  hashes ← read_times n_blocks (read_uint 32)
  pure (record { hashes = hashes; last_height = to_signed two_32 height })

-- The one block of the older versions.
unfoldable pub read_hash_at : ℤ → Reader RecentBlocks
read_hash_at height =
    if eqb_ℤ height minus_one
    then pure (record { hashes = []; last_height = height })
    else do hash ← read_uint 32; pure (record { hashes = hash ∷ []; last_height = height })

unfoldable pub read_one_block : Reader RecentBlocks
unfolding read_hash_at
read_one_block = do height ← read_uint 4; read_hash_at (to_signed two_32 height)

-- `recentBlocks.ReadFromVersion`
unfoldable pub read_recent : Version → Reader RecentBlocks
unfolding read_one_block read_recent_blocks
read_recent v = if lt v vers_20_last_blocks then read_one_block else read_recent_blocks

-- `recentBlocks.WriteTo`
unfoldable pub write_recent : RecentBlocks → Result (List ℕ)
write_recent rb =
    if ltb max_recent (length rb.hashes)
    then err (keystore too_many_blocks)
    else if not (length rb.hashes == 0) && ltb_ℤ rb.last_height (pos 0)
    then err (keystore negative_height)
    else ok (
        put_uint 4 (length rb.hashes)
        ++ (put_uint 4 (to_unsigned two_32 rb.last_height) ++ write_list (put_uint 32) rb.hashes))

unfoldable pub check_space : ℕ → ℕ → Result (Unit {0})
check_space n read = if ltb n read then err (keystore unused_space) else ok tt

-- `unusedSpace.ReadFromVersion` of `n` bytes that hold the recent blocks.
unfoldable pub read_unused_space : ℕ → Version → Reader RecentBlocks
unfolding check_space
read_unused_space n v = do
  found ← measure (read_recent v)
  fits ← lift (check_space n found.1)
  unused ← read_full (n - found.1)
  pure found.0

abbrev pub fill_space : ℕ → Result (List ℕ) → Result (List ℕ)
fill_space n (ok bytes) =
    if ltb n (length bytes)
    then err (keystore unused_space)
    else ok (bytes ++ replicate (n - length bytes) 0)
fill_space n (err e) = err e
fill_space n panic = panic

-- `unusedSpace.WriteTo`
unfoldable pub write_unused_space : ℕ → RecentBlocks → Result (List ℕ)
write_unused_space n rb = fill_space n (write_recent rb)
