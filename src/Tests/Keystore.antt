-- ===== src/Tests/Keystore.antt =====
-- The recently seen blocks, the versions, the addresses, the entries and the key store at concrete
-- inputs, with a small group in the place of the curve.
use btcwallet.Prelude.{
  ℕ, suc, ◌≡◌, ◌≤◌, refl, none, some, List, [], ◌∷◌, arith, length, ltb, if◌then◌else◌,
}
use btcwallet.Prelude.Int.{pos, ◌+ℤ◌}
use btcwallet.Errors.{ok}
use btcwallet.Reader.Laws.{Decodes}
use btcwallet.Keystore.Version.{Version, lt, vers_current}
use btcwallet.Keystore.Recent.{BlockStamp, RecentBlocks, set_synced_with}
use btcwallet.Keystore.Recent.History.{block_back, IsBounded}
use btcwallet.Keystore.Recent.Refinement.{set_synced_with_lem, synced_back_newest}
use btcwallet.Keystore.Recent.Codec.{read_unused_space, write_unused_space}
use btcwallet.Keystore.Recent.Codec.RoundTrip.{
  IsStorableRecent, read_unused_space-write_unused_space,
}

abbrev two_blocks : RecentBlocks
two_blocks = record { hashes = 11 ∷ 12 ∷ []; last_height = pos 3 }

abbrev block_four : BlockStamp
block_four = record { height = pos 4; hash = 13 }

two_blocks-IsBounded : IsBounded two_blocks
two_blocks-IsBounded = record { few = omega arith; height_sign = refl; height_fits = omega arith }

set_synced_with_lem_example :
    (block_back (set_synced_with block_four two_blocks) 0 ≡ some block_four)
    × ((d : ℕ)
        → block_back (set_synced_with block_four two_blocks) (suc d)
          ≡ (if ltb d 19 then block_back two_blocks d else none))
    × (length (set_synced_with block_four two_blocks).hashes ≤ 20)
unfolding ◌+ℤ◌
set_synced_with_lem_example = set_synced_with_lem block_four two_blocks two_blocks-IsBounded refl

synced_back_newest_example :
    block_back
      (set_synced_with
        (record { height = pos 2; hash = 12 })
        (record { hashes = 11 ∷ 12 ∷ 13 ∷ []; last_height = pos 3 }))
      0
    ≡ some (record { height = pos 2; hash = 11 })
synced_back_newest_example =
    synced_back_newest (11 ∷ 12 ∷ 13 ∷ []) 3 1 12 (omega arith) (omega arith) (omega arith)
      (omega arith) refl 0 refl

abbrev vers_two : Version
vers_two = record { major = 2; minor = 0; bugfix = 0; autoincrement = 0 }

two_blocks-IsStorableRecent : IsStorableRecent two_blocks
two_blocks-IsStorableRecent = record {
  few = omega arith;
  height_sign = refl;
  height_fits = (omega arith, omega arith);
  hashes_fit = (omega arith, (omega arith, tt));
}

read_unused_space-write_unused_space_example :
    (bytes : List ℕ) × (write_unused_space 1024 two_blocks ≡ ok bytes)
    × Decodes (read_unused_space 1024 vers_current) bytes two_blocks
unfolding lt
read_unused_space-write_unused_space_example =
    read_unused_space-write_unused_space two_blocks vers_current two_blocks-IsStorableRecent refl
