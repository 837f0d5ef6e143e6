-- ===== src/Keystore/Store/SyncHeight.antt =====
-- `SyncHeight` as a minimum.
use btcwallet.Prelude.{ℕ, ◌≡◌, ◌⊎◌, some, List, get_elem?, All}
use btcwallet.Prelude.Int.{ℤ, pos, ◌≤ℤ◌}
use btcwallet.Keystore.Address.{WalletAddress, sync_status}
use btcwallet.Keystore.Store.{unsynced_height}

-- The height of the address, if it is not synced, is not negative; and it is at least `low`.
abbrev pub IsMined : WalletAddress → Type 0
IsMined w = (h : ℤ) → unsynced_height (sync_status w) ≡ some h → pos 0 ≤ℤ h

abbrev pub IsAtLeast : ℤ → WalletAddress → Type 0
IsAtLeast low w = (h : ℤ) → unsynced_height (sync_status w) ≡ some h → low ≤ℤ h

-- `low` is the minimum of a height and of the heights of the addresses that are not synced.
pub record IsLowest (ws : List WalletAddress) (height low : ℤ) : Type 0 where
  pub below : low ≤ℤ height
  pub below_all : All (IsAtLeast low) ws
  pub attained :
      (low ≡ height)
      ⊎ ((i : ℕ) × (w : WalletAddress) × (get_elem? ws i ≡ some w)
          × (unsynced_height (sync_status w) ≡ some low))
