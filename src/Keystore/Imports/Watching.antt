-- ===== src/Keystore/Imports/Watching.antt =====
-- A watching-only copy has no private keys.
use btcwallet.Prelude.{◌≡◌, refl, true, false, some, List, [], ◌∷◌, map, get_elem?, All, All-append}
use btcwallet.Errors.{ok, err, keystore, watching_only}
use btcwallet.Keystore.Address.{
  Bytes, zeros, Crypto, WalletAddress, btc_address, script_address, watching_copy,
}
use btcwallet.Keystore.Store.{KeyStore, is_locked, addresses, pointers}
use btcwallet.Keystore.Unlock.{unlock_store}
use btcwallet.Keystore.Imports.{watching_store, export_watching_wallet}

-- Nothing is left of a private key.
abbrev pub IsWatching : WalletAddress → Type 0
IsWatching (btc_address a) =
    (a.flags.has_priv_key ≡ false)
    × (a.flags.encrypted ≡ false)
    × (a.priv_key ≡ zeros 32)
    × (a.priv_key_ct ≡ [])
IsWatching (script_address a) = Unit {0}

watching_copy-IsWatching : (w : WalletAddress) → IsWatching (watching_copy w)
unfolding watching_copy
watching_copy-IsWatching (btc_address a) = (refl, refl, refl, refl)
watching_copy-IsWatching (script_address a) = tt

map-IsWatching : (ws : List WalletAddress) → All IsWatching (map watching_copy ws)
map-IsWatching [] = tt
map-IsWatching (w ∷ ws) = (watching_copy-IsWatching w, map-IsWatching ws)

-- For a key store that is not watching-only and whose key generator exists: `ExportWatchingWallet` gives
-- a key store in which no address has anything of a private key, which is locked, and which `Unlock`
-- refuses with ErrWatchingOnly, whatever the passphrase.
pub export_watching_wallet-IsWatching :
    (c : Crypto) (sha512 : Bytes → Bytes) (s : KeyStore) (g : WalletAddress)
    → s.flags.watching_only ≡ false
    → get_elem? s.heap s.key_generator ≡ some g
    → (t : KeyStore) × (export_watching_wallet s ≡ ok t)
      × All IsWatching t.heap
      × (is_locked t ≡ true)
      × ((passphrase : Bytes)
          → unlock_store c sha512 passphrase t ≡ (err (keystore watching_only), t))
unfolding export_watching_wallet watching_store is_locked unlock_store
export_watching_wallet-IsWatching c sha512 s g h e = (
  watching_store g s,
  rw (h, e) refl,
  (
    watching_copy-IsWatching g,
    All-append IsWatching _ _ (map-IsWatching (addresses s.heap (pointers s.addr_map)))
        (map-IsWatching (addresses s.heap s.imported_addrs)),
  ),
  refl,
  λ passphrase. refl,
)
