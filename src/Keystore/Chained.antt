-- ===== src/Keystore/Chained.antt =====
-- The chain of addresses of a key store: new addresses, `NextChainedAddress`, `ChangeAddress`, and the
-- extension of an unlocked and of a locked key store.
pub mod Indices
use btcwallet.Prelude.{
  ℕ, zero, suc, Bool, true, false, ◌&&◌, not, Option, none, some, [], ◌∷◌, ◌++◌, length, get_elem?,
  ◌==◌, if◌then◌else◌,
}
use btcwallet.Prelude.Int.{ℤ, pos, ◌+ℤ◌, eqb_ℤ, wrap64, int_eq}
use btcwallet.Prelude.Map.{lookup, insert}
use btcwallet.Errors.{
  Error, Result, ok, err, panic, keystore, locked, missing_chained_address, not_pubkey_address,
  chain_map_broken, address_missing, invalid_pubkey_length, invalid_privkey_length, key_unavailable,
}
use btcwallet.TxStore.Monad.{then_try}
use btcwallet.Keystore.Chain.{chained_priv_key, chained_pub_key}
use btcwallet.Keystore.Store.{
  KeyStore, Pointer, M, pure, try, method, ◌>>=◌, ◌>>◌, modify, is_locked,
}
use btcwallet.Keystore.Address.{
  Bytes, zeros, Crypto, Point, BtcAddress, btc_address, script_address, pub_key_bytes, bytes_eq,
}
use btcwallet.Keystore.Address.Keys.{unlock, encrypt}

-- What a new address takes from outside: the initialization vector that `rand.Read` gives, the time,
-- and the height of the block.
pub record Fresh : Type 0 where
  pub init_vector : Result Bytes
  pub now : ℤ
  pub height : ℤ

module _ (c : Crypto) where
  abbrev pub new_address : Fresh → Bytes → Bytes → Point → BtcAddress
  new_address fresh pubkey iv point = record {
    address = c.hash160 pubkey;
    flags = record {
      has_priv_key = false;
      has_pub_key = true;
      encrypted = false;
      create_priv_key_next_unlock = true;
      compressed = length pubkey == 33;
      change = false;
      unsynced = false;
      partial_sync = false;
    };
    chaincode = zeros 32;
    chain_index = pos 0;
    chain_depth = pos 0;
    init_vector = iv;
    priv_key = zeros 32;
    pub_key = point;
    first_seen = fresh.now;
    last_seen = pos 0;
    first_block = fresh.height;
    partial_sync_height = pos 0;
    priv_key_ct = [];
  }

  -- `newBtcAddressWithoutPrivkey`; all calls leave the vector to `rand.Read`.
  unfoldable pub new_btc_address_without_privkey : Fresh → Bytes → Result BtcAddress
  new_btc_address_without_privkey fresh pubkey =
      if not (length pubkey == 33) && not (length pubkey == 65)
      then err (keystore invalid_pubkey_length)
      else then_try fresh.init_vector (λ iv. then_try (c.parse_pub_key pubkey) (λ point.
        then_try (c.new_address_pub_key_hash (c.hash160 pubkey))
          (λ _. ok (new_address fresh pubkey iv point))))

  -- `pubkeyFromPrivkey`
  unfoldable pub pubkey_from_privkey : Bytes → Bool → Bytes
  pubkey_from_privkey privkey compress =
      if compress
      then c.serialize_compressed (c.scalar_base_mult privkey)
      else c.serialize_uncompressed (c.scalar_base_mult privkey)

  -- `newBtcAddress`
  unfoldable pub new_btc_address : Fresh → Bytes → Bool → Result BtcAddress
  unfolding new_btc_address_without_privkey pubkey_from_privkey
  new_btc_address fresh privkey compressed =
      if not (length privkey == 32)
      then err (keystore invalid_privkey_length)
      else then_try (new_btc_address_without_privkey fresh (pubkey_from_privkey privkey compressed))
          (λ a. ok (record a {
            flags = record a.flags { create_priv_key_next_unlock = false; has_priv_key = true };
            priv_key_ct = privkey;
          }))

  -- `verifyKeypairs`; `signs` is a signature of crypto/ecdsa with the private key, and its verification
  -- with the public one.
  unfoldable pub verify_keypairs :
      (Bytes → Point → Result (Unit {0})) → BtcAddress → Result (Unit {0})
  verify_keypairs signs a =
      if not (length a.priv_key_ct == 32)
      then err (keystore key_unavailable)
      else signs a.priv_key_ct a.pub_key

-- The address at a pointer, if it is a `*btcAddress`.
abbrev pub as_btc : Pointer → KeyStore → Result BtcAddress
as_btc r s = elim (get_elem? s.heap r) [
  | none ↦ panic
  | some w ↦ elim w [ btc_address a ↦ ok a | script_address a ↦ err (keystore not_pubkey_address) ]
]

abbrev pub found : {A : Type 0} → Error → Option A → Result A
found e none = err e
found e (some a) = ok a

-- The pointer to the last chained address: the hash of an index that is missing is that of a nil
-- address, a panic.
abbrev pub last_chained : KeyStore → Result Pointer
last_chained s = elim (lookup s.last_chain_idx s.chain_idx_map) [
  | none ↦ panic
  | some hash ↦ found (keystore missing_chained_address) (lookup hash s.addr_map)
]

-- A new address enters the maps behind the address `prev`, with its chaincode.
unfoldable pub append_address : BtcAddress → BtcAddress → KeyStore → KeyStore
append_address prev a s =
    let index = wrap64 (prev.chain_index +ℤ pos 1) in
    record s {
      heap =
          s.heap
          ++ (btc_address (record a { chain_index = index; chaincode = prev.chaincode }) ∷ []);
      addr_map = insert a.address (length s.heap) s.addr_map;
      chain_idx_map = insert index a.address s.chain_idx_map;
      last_chain_idx = wrap64 (s.last_chain_idx +ℤ pos 1);
    }

module _ (c : Crypto) where
  -- `extendLockedWallet`: an address without a private key, to be made at the next `Unlock`.
  unfoldable pub extend_locked_wallet : Fresh → M (Unit {0})
  unfolding append_address
  extend_locked_wallet fresh = do
    r ← try last_chained
    prev ← try (as_btc r)
    pubkey ← try (λ s. chained_pub_key c (pub_key_bytes c prev) prev.chaincode)
    a ← try (λ s. new_btc_address_without_privkey c fresh pubkey)
    modify (append_address prev a)
    modify (λ s.
        if eqb_ℤ s.missing_keys_start (pos 0)
        then record s { missing_keys_start = wrap64 (prev.chain_index +ℤ pos 1) }
        else s)

  -- The loop of `extendKeypool`: the addresses after `prev`, whose private key is `privkey`.
  unfoldable pub extend_each :
      (Bytes → Point → Result (Unit {0})) → (ℕ → Fresh) → ℕ → BtcAddress → Bytes → M (Unit {0})
  unfolding append_address
  extend_each signs fresh zero prev privkey = pure tt
  extend_each signs fresh (suc n) prev privkey = do
    next ← try (λ s. chained_priv_key c privkey (pub_key_bytes c prev) prev.chaincode)
    a ← try (λ s. new_btc_address c (fresh n) next true)
    verified ← try (λ s. verify_keypairs c signs a)
    encrypted ← try (λ s. (encrypt c s.secret a).0)
    modify (λ s. append_address prev (encrypt c s.secret a).1 s)
    extend_each signs fresh n
        (record a { chain_index = wrap64 (prev.chain_index +ℤ pos 1); chaincode = prev.chaincode })
        next

  -- `extendKeypool`
  unfoldable pub extend_keypool :
      (Bytes → Point → Result (Unit {0})) → (ℕ → Fresh) → ℕ → M (Unit {0})
  unfolding extend_each is_locked
  extend_keypool signs fresh n = do
    r ← try last_chained
    unlocked ← try (λ s. if is_locked s then err (keystore locked) else ok tt)
    prev ← try (as_btc r)
    s ← try ok
    privkey ← method r (unlock c s.secret)
    extend_each signs fresh n prev privkey

  -- `nextChainedAddress`: the pointer to the address.
  abbrev pub next_hash : KeyStore → Option Bytes
  next_hash s = lookup (wrap64 (s.highest_used +ℤ pos 1)) s.chain_idx_map

  unfoldable pub find_next :
      (Bytes → Point → Result (Unit {0})) → (ℕ → Fresh) → ℕ → Option Bytes → M Bytes
  unfolding extend_keypool extend_locked_wallet is_locked
  find_next signs fresh keypool_size (some hash) = pure hash
  find_next signs fresh keypool_size none = do
    s ← try ok
    extended ←
        if is_locked s
        then extend_locked_wallet (fresh 0)
        else extend_keypool signs fresh keypool_size
    try (λ t. found (keystore chain_map_broken) (next_hash t))

  unfoldable pub next_chained_address :
      (Bytes → Point → Result (Unit {0})) → (ℕ → Fresh) → ℕ → M Pointer
  unfolding find_next
  next_chained_address signs fresh keypool_size = do
    s ← try ok
    hash ← find_next signs fresh keypool_size (next_hash s)
    r ← try (λ t. found (keystore address_missing) (lookup hash t.addr_map))
    a ← try (as_btc r)
    modify (λ t. record t { highest_used = wrap64 (t.highest_used +ℤ pos 1) })
    pure r

  -- `ChangeAddress`: the address is marked as one for change.
  unfoldable pub change_address : (Bytes → Point → Result (Unit {0})) → (ℕ → Fresh) → ℕ → M Pointer
  unfolding next_chained_address
  change_address signs fresh keypool_size = do
    r ← next_chained_address signs fresh keypool_size
    marked ← method r (λ a. (ok tt, record a { flags = record a.flags { change = true } }))
    pure r
