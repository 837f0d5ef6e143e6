-- ===== src/Tests/KeyStores.antt =====
-- A key store with a locked root address and a script at concrete inputs.
use btcwallet.Prelude.{
  ◌≡◌, refl, true, false, [], ◌∷◌, arith, replicate, All, none, sym, inl, inr, Bool-cases,
  if◌then◌else◌,
}
use btcwallet.Prelude.Int.{eqb_ℤ, eqb_ℤ_iff, ℤ, pos, negsuc}
use btcwallet.Errors.{ok, err, keystore, locked, watching_only}
use btcwallet.Tests.Addresses.{clear, old_key}
use btcwallet.Keystore.Version.{vers_current}
use btcwallet.Keystore.Address.{
  Bytes, BtcAddress, btc_address, script_address, ScriptAddress, bytes_eq, bytes_equal,
  pub_key_bytes,
}
use btcwallet.Prelude.Map.{lookup}
use btcwallet.Bytes.{put_uint, get_uint}
use btcwallet.Tests.Crypto.{small}
use btcwallet.Keystore.Chain.{chained_pub_key}
use btcwallet.Keystore.BigInt.{set_bytes}
use btcwallet.Keystore.Chained.{
  Fresh, extend_locked_wallet, new_address, as_btc, new_btc_address_without_privkey,
}
use mathlib.Core.Path.{subst}
use btcwallet.Keystore.Chained.Indices.{IsAt, IsChained, IsUnused, extend_locked_wallet-IsChained}
use btcwallet.Keystore.Imports.{export_watching_wallet}
use btcwallet.Keystore.Imports.Watching.{IsWatching, export_watching_wallet-IsWatching}
use btcwallet.Keystore.Unlock.{unlock_store, create_missing_private_keys}
use btcwallet.Keystore.Unlock.FirstAddress.{first_address_forgotten}
use btcwallet.Keystore.Store.{KeyStore, pointers, is_locked, lock_store}
use btcwallet.Keystore.Store.Lock.{IsCleared, lock_store-IsCleared}

-- The root address, encrypted and with its clear text.
abbrev root : BtcAddress
root = record clear { flags = record clear.flags { encrypted = true } }

-- A script that was imported at a block below those that are synced.
abbrev imported_script : ScriptAddress
imported_script = record {
  script_hash = replicate 20 8;
  script_flags = record {
    has_script = true;
    script_change = false;
    script_unsynced = true;
    script_partial_sync = false;
  };
  script = 81 ∷ [];
  script_first_seen = pos 1000;
  script_last_seen = pos 1000;
  script_first_block = pos 120;
  script_partial_sync_height = pos 0;
}

abbrev opened : KeyStore
opened = record {
  vers = vers_current;
  flags = record { use_encryption = true; watching_only = false };
  highest_used = negsuc 0;
  kdf_params = record { mem = 64; n_iter = 1; salt = replicate 32 1 };
  key_generator = 0;
  recent = record { hashes = 77 ∷ []; last_height = pos 200 };
  addr_map = (replicate 20 9, 0) ∷ (replicate 20 8, 1) ∷ [];
  passphrase = 104 ∷ 105 ∷ [];
  secret = old_key;
  chain_idx_map = (negsuc 0, replicate 20 9) ∷ [];
  last_chain_idx = negsuc 0;
  missing_keys_start = pos 0;
  imported_addrs = 1 ∷ [];
  heap = btc_address root ∷ script_address imported_script ∷ [];
}

lock_store-IsCleared_example :
    All (IsCleared (lock_store opened).1.heap) (pointers (lock_store opened).1.addr_map)
    × (is_locked (lock_store opened).1 ≡ true)
    × ((lock_store opened).0 ≡ (if is_locked opened then err (keystore locked) else ok tt))
lock_store-IsCleared_example = lock_store-IsCleared opened refl

-- The same key store locked, with no address but the root.
abbrev closed_at : ℤ → KeyStore
closed_at used = record opened {
  imported_addrs = [];
  highest_used = used;
  addr_map = (replicate 20 9, 0) ∷ [];
  passphrase = [];
  secret = [];
  heap = btc_address (record root { priv_key_ct = [] }) ∷ [];
}

abbrev closed : KeyStore
closed = closed_at (negsuc 0)

abbrev fresh : Fresh
fresh = record { init_vector = ok (replicate 16 1); now = pos 5000; height = pos 210 }

first_address_forgotten_example :
    let t : KeyStore = (extend_locked_wallet small fresh closed).1 in
    create_missing_private_keys small t ≡ (ok tt, t)
unfolding lookup bytes_equal
first_address_forgotten_example =
    first_address_forgotten small fresh closed (record root { priv_key_ct = [] }) 0 refl refl refl
      refl

-- The extension succeeds, and the address that it makes is marked as one without a private key.
first_address_made : (extend_locked_wallet small fresh closed).0 ≡ ok tt
unfolding extend_locked_wallet lookup bytes_equal small pub_key_bytes chained_pub_key
    new_btc_address_without_privkey put_uint get_uint set_bytes
first_address_made = refl

closed_at-IsChained : (used : ℤ) → IsChained (closed_at used)
unfolding lookup bytes_equal
closed_at-IsChained used i hash e = elim (Bool-cases (eqb_ℤ (negsuc 0) i)) [
  | inl here ↦
      let same : replicate 20 9 ≡ hash = ground arith in
      subst (λ h. IsAt (closed_at used) i h) same
        (record {
          pointer = 0;
          at = record root { priv_key_ct = [] };
          mapped = refl;
          stored = refl;
          own_hash = refl;
          own_index = (eqb_ℤ_iff (negsuc 0) i).0 here;
        })
  | inr there ↦ absurd (ground arith)
]

ok_same : {A : Type 0} {x y : A} → ok x ≡ ok y → x ≡ y
ok_same h = cc

-- The public key that is chained off the root, and its address.
abbrev chained_key : Bytes
chained_key = 2 ∷ 1 ∷ replicate 31 0

abbrev chained_address : BtcAddress
chained_address = new_address small fresh chained_key (replicate 16 1) (record { x = 1; y = 0 })

closed-IsUnused : IsUnused small fresh closed
unfolding lookup bytes_equal small pub_key_bytes chained_pub_key new_btc_address_without_privkey
    put_uint get_uint set_bytes
closed-IsUnused r prev k a l b e f =
    let same_pointer : 0 ≡ r = ok_same l in
    let same_prev : record root { priv_key_ct = [] } ≡ prev =
      ok_same (subst (λ x. as_btc x closed ≡ ok prev) (sym same_pointer) b) in
    let same_key : chained_key ≡ k = ok_same (
      subst (λ x. chained_pub_key small (pub_key_bytes small x) x.chaincode ≡ ok k) (sym same_prev)
        e) in
    let same_address : chained_address ≡ a =
      ok_same
        (subst (λ x. new_btc_address_without_privkey small fresh x ≡ ok a) (sym same_key) f) in
    subst (λ x. lookup x.address closed.addr_map ≡ none) same_address refl

extend_locked_wallet-IsChained_example : IsChained (extend_locked_wallet small fresh closed).1
extend_locked_wallet-IsChained_example =
    extend_locked_wallet-IsChained small fresh closed (closed_at-IsChained (negsuc 0))
      closed-IsUnused

export_watching_wallet-IsWatching_example :
    (t : KeyStore) × (export_watching_wallet opened ≡ ok t)
    × All IsWatching t.heap
    × (is_locked t ≡ true)
    × ((passphrase : Bytes)
        → unlock_store small (λ b. b) passphrase t ≡ (err (keystore watching_only), t))
export_watching_wallet-IsWatching_example =
    export_watching_wallet-IsWatching small (λ b. b) opened (btc_address root) refl refl
