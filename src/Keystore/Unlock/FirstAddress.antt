-- ===== src/Keystore/Unlock/FirstAddress.antt =====
-- The first address that is chained off the root of a locked key store.
use btcwallet.Prelude.{◌≡◌, refl}
use btcwallet.Prelude.Int.{pos, ◌+ℤ◌, wrap64}
use btcwallet.Errors.{Result, ok, err, panic}
use btcwallet.Keystore.Address.{Bytes, Crypto, BtcAddress, pub_key_bytes, root_key_chain_idx}
use btcwallet.Keystore.Chain.{chained_pub_key}
use btcwallet.Keystore.Store.{KeyStore, Pointer}
use btcwallet.Keystore.Chained.{
  Fresh, as_btc, last_chained, append_address, new_btc_address_without_privkey,
  extend_locked_wallet,
}
use btcwallet.Keystore.Unlock.{create_missing_private_keys}

after_root : wrap64 (root_key_chain_idx +ℤ pos 1) ≡ pos 0
unfolding wrap64 ◌+ℤ◌
after_root = refl

module _ (c : Crypto) (fresh : Fresh) (s : KeyStore) (prev : BtcAddress) (r : Pointer)
    (last : last_chained s ≡ ok r) (there : as_btc r s ≡ ok prev)
    (root : prev.chain_index ≡ root_key_chain_idx)
    (none_missing : s.missing_keys_start ≡ pos 0) where
  abbrev extended : Result (Unit {0}) × KeyStore
  extended = extend_locked_wallet c fresh s

  -- With the public key of the new address, the start of the missing keys is set to its index, 0.
  zero_after :
      (k : Bytes) (q : Result BtcAddress)
      → chained_pub_key c (pub_key_bytes c prev) prev.chaincode ≡ ok k
      → new_btc_address_without_privkey c fresh k ≡ q
      → extended.1.missing_keys_start ≡ pos 0
  unfolding extend_locked_wallet append_address
  zero_after k (ok a) e f = rw (last, there, e, f, none_missing, root, after_root) refl
  zero_after k (err x) e f = rw (last, there, e, f) none_missing
  zero_after k panic e f = rw (last, there, e, f) none_missing

  still_zero :
      (p : Result Bytes)
      → chained_pub_key c (pub_key_bytes c prev) prev.chaincode ≡ p
      → extended.1.missing_keys_start ≡ pos 0
  unfolding extend_locked_wallet
  still_zero (ok k) e = zero_after k _ e refl
  still_zero (err x) e = rw (last, there, e) none_missing
  still_zero panic e = rw (last, there, e) none_missing

  -- For a key store without missing keys whose last chained address is the root address:
  -- after `extendLockedWallet`, whatever it returns, `createMissingPrivateKeys` does nothing, so that
  -- the address of index 0 that it has made gets no private key.
  pub first_address_forgotten : create_missing_private_keys c extended.1 ≡ (ok tt, extended.1)
  unfolding create_missing_private_keys
  first_address_forgotten = rw (still_zero _ refl) refl
