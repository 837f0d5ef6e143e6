-- ===== src/Keystore/Store.antt =====
-- The key store in memory: `Lock`, `ChangePassphrase`, `Passphrase`, the next chained address with
-- the extension of a locked key store, and the sync status.
--
-- A `walletAddress` is shared: `addrMap`, `keyGenerator` and `importedAddrs` hold the pointer, and a write
-- through one of them shows through all. `KeyStore.heap` is the heap, and a `Pointer` an index there.
pub mod Lock
pub mod SyncHeight
use btcwallet.Prelude.{
  ℕ, zero, suc, ◌+◌, Bool, true, false, ◌&&◌, not, Option, none, some, List, [], ◌∷◌, ◌++◌, length,
  get_elem?, set, ◌==◌, if◌then◌else◌,
}
use btcwallet.Prelude.Int.{ℤ, pos, negsuc, ◌+ℤ◌, ltb_ℤ, eqb_ℤ, wrap64, int_eq}
use btcwallet.Prelude.Map.{Eq, Map, lookup, insert}
use btcwallet.Errors.{
  Error, Result, ok, err, panic, keystore, watching_only, locked, missing_chained_address,
  not_pubkey_address, chain_map_broken, address_missing, address_not_found, invalid_pubkey_length,
}
use btcwallet.Keystore.Version.{Version}
use btcwallet.Keystore.Recent.{RecentBlocks, BlockStamp}
use btcwallet.Keystore.Kdf.{KdfParameters, key}
use btcwallet.Keystore.Chain.{chained_pub_key}
use btcwallet.Keystore.Codec.{WalletFlags}
use btcwallet.Keystore.Address.{
  Bytes, zeros, Crypto, Point, BtcAddress, WalletAddress, btc_address, script_address, SyncStatus,
  unsynced_since, partial_sync_at, full_sync, sync_status, set_sync_status, set_btc_status,
  pub_key_bytes, bytes_eq,
}
use btcwallet.Keystore.Address.Keys.{lock, change_encryption_key}

abbrev pub Pointer : Type 0
Pointer = ℕ

-- The fields that the calls of this module use; the name, the comments and the like are left out.
pub record KeyStore : Type 0 where
  pub vers : Version
  pub flags : WalletFlags
  pub highest_used : ℤ
  pub kdf_params : KdfParameters
  pub key_generator : Pointer
  pub recent : RecentBlocks
  pub addr_map : Map Bytes Pointer
  pub passphrase : Bytes
  pub secret : Bytes
  pub chain_idx_map : Map ℤ Bytes
  pub last_chain_idx : ℤ
  pub missing_keys_start : ℤ
  pub imported_addrs : List Pointer
  pub heap : List WalletAddress

-- A call returns a result and leaves a key store; what was written before an error stays written.
abbrev pub M : Type 0 → Type 0
M A = KeyStore → Result A × KeyStore

module _ {A : Type 0} where
  abbrev pub pure : A → M A
  pure a s = (ok a, s)

  abbrev pub try : (KeyStore → Result A) → M A
  try f s = (f s, s)

  -- A call of a method of an address.
  abbrev pub method : Pointer → (BtcAddress → Result A × BtcAddress) → M A
  method r f s = elim (get_elem? s.heap r) [
    | none ↦ (panic, s)
    | some w ↦ elim w [
      | btc_address a ↦ ((f a).0, record s { heap = set s.heap r (btc_address (f a).1) })
      | script_address a ↦ (panic, s)
    ]
  ]

abbrev pub continue_with : {A B : Type 0} → Result A × KeyStore → (A → M B) → Result B × KeyStore
continue_with p f = elim p.0 [ ok a ↦ f a p.1 | err e ↦ (err e, p.1) | panic ↦ (panic, p.1) ]

infixl 5 ◌>>=◌ ◌>>◌
abbrev pub ◌>>=◌ : {A B : Type 0} → M A → (A → M B) → M B
◌>>=◌ m f s = continue_with (m s) f

abbrev pub ◌>>◌ : {A B : Type 0} → M A → M B → M B
m >> k = m >>= λ _. k

abbrev pub modify : (KeyStore → KeyStore) → M (Unit {0})
modify f s = (ok tt, f s)

-- `IsLocked`
unfoldable pub is_locked : KeyStore → Bool
is_locked s = not (length s.secret == 32)

-- `Passphrase`
unfoldable pub get_passphrase : KeyStore → Result Bytes
get_passphrase s = if not (length s.passphrase == 0) then ok s.passphrase else err (keystore locked)

-- The pointers of `addrMap`, in the order of a `range` over it.
abbrev pub pointers : Map Bytes Pointer → List Pointer
pointers [] = []
pointers ((k, r) ∷ m) = r ∷ pointers m

-- `_ = baddr.lock()` where the address is a `*btcAddress`.
abbrev pub lock_at : Pointer → List WalletAddress → List WalletAddress
lock_at r heap = elim (get_elem? heap r) [
  | none ↦ heap
  | some w ↦ elim w [
    | btc_address a ↦ set heap r (btc_address (lock a).1)
    | script_address a ↦ heap
  ]
]

unfoldable pub lock_each : List Pointer → List WalletAddress → List WalletAddress
lock_each [] heap = heap
lock_each (r ∷ rs) heap = lock_each rs (lock_at r heap)

-- `Lock`
unfoldable pub lock_store : M (Unit {0})
unfolding is_locked lock_each
lock_store s =
    if s.flags.watching_only
    then (err (keystore watching_only), s)
    else let heap = lock_each (pointers s.addr_map) s.heap in
      if is_locked s
      then (err (keystore locked), record s { heap = heap })
      else (ok tt, record s { heap = heap; passphrase = []; secret = [] })

-- The addresses that are no `*btcAddress` are passed over; `random` gives each other one's new vector.
abbrev pub change_at : Crypto → Bytes → Bytes → Result Bytes → Pointer → M (Unit {0})
change_at c old_key new_key random r s = elim (get_elem? s.heap r) [
  | none ↦ (panic, s)
  | some w ↦ elim w [
    | btc_address a ↦ method r (change_encryption_key c old_key new_key random) s
    | script_address a ↦ (ok tt, s)
  ]
]

unfoldable pub change_each :
    Crypto → Bytes → Bytes → (Pointer → Result Bytes) → List Pointer → M (Unit {0})
change_each c old_key new_key random [] = pure tt
change_each c old_key new_key random (r ∷ rs) =
    change_at c old_key new_key (random r) r >> change_each c old_key new_key random rs

-- `ChangePassphrase`; `sha512` is that of crypto/sha512.
unfoldable pub change_passphrase :
    Crypto → (Bytes → Bytes) → Bytes → (Pointer → Result Bytes) → M (Unit {0})
unfolding change_each is_locked
change_passphrase c sha512 passphrase random s =
    if s.flags.watching_only
    then (err (keystore watching_only), s)
    else if is_locked s
    then (err (keystore locked), s)
    else (try (λ t. key sha512 passphrase t.kdf_params) >>= λ new_key.
          change_each c s.secret new_key random (pointers s.addr_map)
          >> modify (λ t. record t { passphrase = passphrase; secret = new_key }))
        s

-- `SetSyncStatus`
unfoldable pub set_address_status : Bytes → SyncStatus → M (Unit {0})
set_address_status hash status s = elim (lookup hash s.addr_map) [
  | none ↦ (err (keystore address_not_found), s)
  | some r ↦ elim (get_elem? s.heap r) [
    | none ↦ (panic, s)
    | some w ↦ (ok tt, record s { heap = set s.heap r (set_sync_status status w) })
  ]
]

-- `SetSyncedWith` of nil: `keyGenerator` is a `btcAddress`.
unfoldable pub set_unsynced : M (Unit {0})
set_unsynced s = elim (get_elem? s.heap s.key_generator) [
  | none ↦ (panic, s)
  | some w ↦ elim w [
    | btc_address a ↦ (
      ok tt,
      record s {
        recent = record { hashes = []; last_height = a.first_block };
        heap = set s.heap s.key_generator (btc_address (set_btc_status true false (pos 0) a));
      },
    )
    | script_address a ↦ (panic, s)
  ]
]

-- `SyncHeight`: where a rescan begins. First the height of the key generator and the recent blocks.
unfoldable pub first_height : SyncStatus → ℤ → ℤ
first_height (partial_sync_at h) last = if ltb_ℤ last h then h else last
first_height (unsynced_since h) last = last
first_height full_sync last = last

-- The height of an address that is not synced.
abbrev pub unsynced_height : SyncStatus → Option ℤ
unsynced_height (unsynced_since h) = some h
unsynced_height (partial_sync_at h) = some h
unsynced_height full_sync = none

-- The loop over the addresses, which ends early at the height 0.
unfoldable pub lowest_height : List WalletAddress → ℤ → ℤ
lowest_height [] height = height
lowest_height (w ∷ ws) height =
    let rest = lowest_height ws in
    elim (unsynced_height (sync_status w)) [
      | none ↦ rest height
      | some h ↦ if ltb_ℤ h height then (if eqb_ℤ h (pos 0) then h else rest h) else rest height
    ]

-- The addresses of `addrMap`.
abbrev pub addresses : List WalletAddress → List Pointer → List WalletAddress
addresses heap [] = []
addresses heap (r ∷ rs) = elim (get_elem? heap r) [
  | none ↦ addresses heap rs
  | some w ↦ w ∷ addresses heap rs
]

unfoldable pub sync_height : KeyStore → Result ℤ
unfolding first_height lowest_height
sync_height s = elim (get_elem? s.heap s.key_generator) [
  | none ↦ panic
  | some g ↦ ok (
      lowest_height (addresses s.heap (pointers s.addr_map))
        (first_height (sync_status g) s.recent.last_height))
]
