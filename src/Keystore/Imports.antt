-- ===== src/Keystore/Imports.antt =====
-- `ImportPrivateKey`, `ImportScript`, and the watching-only copy of a key store.
pub mod Watching
use btcwallet.Prelude.{
  ℕ, zero, suc, ◌+◌, Bool, true, false, ◌&&◌, not, Option, none, some, List, [], ◌∷◌, ◌++◌, map,
  length, get_elem?, ◌==◌, if◌then◌else◌,
}
use btcwallet.Prelude.Int.{ℤ, pos, ltb_ℤ, int_eq}
use btcwallet.Prelude.Map.{Map, lookup, insert}
use btcwallet.Errors.{Error, Result, ok, err, panic, keystore, watching_only, locked, duplicate}
use btcwallet.Keystore.Chained.{Fresh, new_btc_address, pubkey_from_privkey}
use btcwallet.Keystore.Store.{
  KeyStore, Pointer, M, pure, try, continue_with, ◌>>=◌, ◌>>◌, modify, is_locked, pointers,
  addresses,
}
use btcwallet.Keystore.Address.{
  Bytes, zeros, Crypto, BtcAddress, ScriptAddress, WalletAddress, btc_address, script_address,
  imported, imported_key_chain_idx, watching_copy, bytes_eq,
}
use btcwallet.Keystore.Address.Keys.{encrypt}

-- An imported address at a height below the blocks that are synced is not synced.
abbrev pub below_recent : ℤ → KeyStore → Bool
below_recent height s = not (length s.recent.hashes == 0) && ltb_ℤ height s.recent.last_height

-- The checks before an import.
abbrev pub check_import : Bytes → KeyStore → Result (Unit {0})
check_import hash s =
    if s.flags.watching_only
    then err (keystore watching_only)
    else elim (lookup hash s.addr_map) [ none ↦ ok tt | some r ↦ err (keystore duplicate) ]

-- An imported address enters `addrMap` and `importedAddrs`.
unfoldable pub add_imported : Bytes → WalletAddress → KeyStore → KeyStore
add_imported hash w s = record s {
  heap = s.heap ++ (w ∷ []);
  addr_map = insert hash (length s.heap) s.addr_map;
  imported_addrs = s.imported_addrs ++ (length s.heap ∷ []);
}

module _ (c : Crypto) where
  -- `newScriptAddress`
  unfoldable pub new_script_address : Fresh → Bytes → Result ScriptAddress
  new_script_address fresh script = elim (c.extract_pk_script_addrs script) [
    | ok _ ↦ elim (c.new_address_script_hash (c.hash160 script)) [
      | ok _ ↦ ok (record {
        script_hash = c.hash160 script;
        script_flags = record {
          has_script = true;
          script_change = false;
          script_unsynced = false;
          script_partial_sync = false;
        };
        script = script;
        script_first_seen = fresh.now;
        script_last_seen = pos 0;
        script_first_block = fresh.height;
        script_partial_sync_height = pos 0;
      })
      | err e ↦ err e
      | panic ↦ panic
    ]
    | err e ↦ err e
    | panic ↦ panic
  ]

  -- `ImportScript`: the hash of the new address.
  unfoldable pub import_script : Fresh → Bytes → M Bytes
  unfolding new_script_address add_imported
  import_script fresh script = do
    checked ← try (check_import (c.hash160 script))
    a ← try (λ s. new_script_address fresh script)
    modify (λ s.
        add_imported a.script_hash
          (script_address (record a {
            script_flags = record a.script_flags { script_unsynced = below_recent fresh.height s };
          }))
          s)
    pure a.script_hash

  -- `ImportPrivateKey` of a WIF: the private key, and whether its public key is compressed.
  unfoldable pub import_private_key : Fresh → Bytes → Bool → M Bytes
  unfolding is_locked add_imported
  import_private_key fresh privkey compress = do
    checked ← try (check_import (c.hash160 (pubkey_from_privkey c privkey compress)))
    unlocked ← try (λ s. if is_locked s then err (keystore locked) else ok tt)
    a ← try (λ s. new_btc_address c fresh privkey compress)
    s ← try ok
    let imported_address = record a {
      chain_index = imported_key_chain_idx;
      flags = record a.flags { unsynced = below_recent fresh.height s };
    }
    encrypted ← try (λ t. (encrypt c t.secret imported_address).0)
    modify (λ t. add_imported a.address (btc_address (encrypt c t.secret imported_address).1) t)
    pure a.address

-- The copies of the addresses of `addrMap`, at the pointers from `n`.
abbrev pub number : ℕ → Map Bytes Pointer → Map Bytes Pointer
number n [] = []
number n ((hash, r) ∷ m) = (hash, n) ∷ number (suc n) m

abbrev pub count_from : ℕ → List WalletAddress → List Pointer
count_from n [] = []
count_from n (w ∷ ws) = n ∷ count_from (suc n) ws

-- The index of each address that is not imported.
abbrev pub index_chain : List WalletAddress → Map ℤ Bytes → Map ℤ Bytes
index_chain [] m = m
index_chain (btc_address a ∷ ws) m =
    let rest = index_chain ws in
    if imported (btc_address a) then rest m else rest (insert a.chain_index a.address m)
index_chain (script_address a ∷ ws) m = index_chain ws m

-- The copy of a key store whose key generator is `g`: the key generator, the addresses of `addrMap` and
-- those of `importedAddrs` are each copied, so that an imported address has two copies.
unfoldable pub watching_store : WalletAddress → KeyStore → KeyStore
unfolding imported watching_copy
watching_store g s =
    let mapped = addresses s.heap (pointers s.addr_map) in
    let listed = addresses s.heap s.imported_addrs in
    record {
      vers = s.vers;
      flags = record { use_encryption = false; watching_only = true };
      highest_used = s.highest_used;
      kdf_params = record { mem = 0; n_iter = 0; salt = zeros 32 };
      key_generator = 0;
      recent = s.recent;
      addr_map = number 1 s.addr_map;
      passphrase = [];
      secret = [];
      chain_idx_map = index_chain mapped [];
      last_chain_idx = s.last_chain_idx;
      missing_keys_start = pos 0;
      imported_addrs = count_from (suc (length mapped)) listed;
      heap = watching_copy g ∷ (map watching_copy mapped ++ map watching_copy listed);
    }

-- `ExportWatchingWallet`
unfoldable pub export_watching_wallet : KeyStore → Result KeyStore
unfolding watching_store
export_watching_wallet s =
    if s.flags.watching_only
    then err (keystore watching_only)
    else elim (get_elem? s.heap s.key_generator) [ none ↦ panic | some g ↦ ok (watching_store g s) ]
