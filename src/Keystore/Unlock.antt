-- ===== src/Keystore/Unlock.antt =====
-- `Unlock`, which makes the private keys of the addresses that were chained while the key store was
-- locked.
pub mod FirstAddress
use btcwallet.Prelude.{
  ℕ, zero, suc, ◌+◌, ◌<◌, ◌≤◌, ◌≡◌, refl, sym, ap, ◌∙◌, ◌⊎◌, inl, inr, Bool, true, false, ◌&&◌,
  ◌||◌, not, Option, none, some, List, [], ◌∷◌, arith, length, get_elem?, set, ◌==◌, if◌then◌else◌,
}
use btcwallet.Prelude.Int.{ℤ, pos, ◌+ℤ◌, ◌-ℤ◌, eqb_ℤ, wrap64, int_eq}
use btcwallet.Prelude.Map.{Map, lookup}
use btcwallet.Errors.{
  Error, Result, ok, err, panic, keystore, locked, watching_only, missing_previous_address,
  not_pubkey_address, already_encrypted,
}
use btcwallet.Keystore.Version.{Version, lt, vers_unset_needs_privkey_flag}
use btcwallet.Keystore.Kdf.{key}
use btcwallet.Keystore.Chain.{chained_priv_key}
use btcwallet.Keystore.Store.{
  KeyStore, Pointer, M, pure, try, method, continue_with, ◌>>=◌, ◌>>◌, modify, is_locked,
}
use btcwallet.Keystore.Chained.{as_btc, found}
use btcwallet.Keystore.Address.{
  Bytes, Crypto, BtcAddress, WalletAddress, btc_address, script_address, pub_key_bytes, bytes_eq,
}
use btcwallet.Keystore.Address.Keys.{unlock, encrypt}

-- The pointer to the address of an index; Go's nil pointer is no `*btcAddress`.
abbrev pub chained_at : Bytes → KeyStore → Result Pointer
chained_at hash s = found (keystore not_pubkey_address) (lookup hash s.addr_map)

-- A method of an address that must be a `*btcAddress`.
abbrev pub method_of : {A : Type 0} → Pointer → (BtcAddress → Result A × BtcAddress) → M A
method_of r f = try (as_btc r) >>= λ _. method r f

-- `ErrAlreadyEncrypted` of an old file is no error.
abbrev pub allow_encrypted :
    Version → Result (Unit {0}) × BtcAddress → Result (Unit {0}) × BtcAddress
allow_encrypted v (err (keystore already_encrypted), a) =
    if lt v vers_unset_needs_privkey_flag then (ok tt, a) else (err (keystore already_encrypted), a)
allow_encrypted v (ok r, a) = (ok r, a)
allow_encrypted v (err e, a) = (err e, a)
allow_encrypted v (panic, a) = (panic, a)

module _ (c : Crypto) where
  -- The private key is put into the address and encrypted.
  unfoldable pub set_priv_key :
      Version → Bytes → Bytes → BtcAddress → Result (Unit {0}) × BtcAddress
  set_priv_key v secret privkey a =
      let (r, b) = allow_encrypted v (encrypt c secret (record a { priv_key_ct = privkey })) in
      elim r [
        | ok _ ↦
            (ok tt, record b { flags = record b.flags { create_priv_key_next_unlock = false } })
        | err e ↦ (err e, b)
        | panic ↦ (panic, b)
      ]

  -- A pass of the loop at the hash of the index, if it is in the map; `go` is the next pass.
  abbrev pub create_at : (Pointer → Bytes → M (Unit {0})) → Bytes → Option Bytes → M (Unit {0})
  create_at go privkey none = pure tt
  create_at go privkey (some hash) = do
    r ← try (chained_at hash)
    s ← try ok
    made ← method_of r (set_priv_key s.vers s.secret privkey)
    go r privkey

  -- The loop over the indices from `i`, which ends at the first that is not in the map. The fuel
  -- bounds the number of indices; used-up fuel is a panic.
  unfoldable pub create_each : ℕ → ℤ → Pointer → Bytes → M (Unit {0})
  unfolding set_priv_key
  create_each zero i prev privkey s = (panic, s)
  create_each (suc fuel) i prev privkey s =
      (try (as_btc prev) >>= λ a.
      try (λ t. chained_priv_key c privkey (pub_key_bytes c a) a.chaincode) >>= λ next.
      create_at (create_each fuel (wrap64 (i +ℤ pos 1))) next (lookup i s.chain_idx_map))
        s

  -- `createMissingPrivateKeys` from an index that is not 0.
  unfoldable pub create_from : ℤ → M (Unit {0})
  unfolding create_each is_locked
  create_from i = do
    hash ← try (λ s.
        found (keystore missing_previous_address) (lookup (wrap64 (i -ℤ pos 1)) s.chain_idx_map))
    unlocked ← try (λ s. if is_locked s then err (keystore locked) else ok tt)
    r ← try (chained_at hash)
    s ← try ok
    privkey ← method_of r (unlock c s.secret)
    created ← create_each (suc (length s.chain_idx_map)) i r privkey
    modify (λ t. record t { missing_keys_start = pos 0 })

  -- `createMissingPrivateKeys`
  unfoldable pub create_missing_private_keys : M (Unit {0})
  unfolding create_from
  create_missing_private_keys s =
      if eqb_ℤ s.missing_keys_start (pos 0) then (ok tt, s) else create_from s.missing_keys_start s

  -- `Unlock`; `sha512` is that of crypto/sha512.
  unfoldable pub unlock_store : (Bytes → Bytes) → Bytes → M (Unit {0})
  unfolding create_missing_private_keys
  unlock_store sha512 passphrase s =
      if s.flags.watching_only
      then (err (keystore watching_only), s)
      else (try (λ t. key sha512 passphrase t.kdf_params) >>= λ derived.
            method s.key_generator (unlock c derived) >>= λ _.
            modify (λ t. record t { passphrase = passphrase; secret = derived })
            >> create_missing_private_keys)
          s
