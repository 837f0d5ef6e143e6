-- ===== src/Keystore/Address/Keys.antt =====
-- The calls that encrypt, lock and unlock the private key of a `btcAddress`.
use btcwallet.Prelude.{true, ◌&&◌, not, [], length, ◌==◌, if◌then◌else◌}
use btcwallet.Errors.{
  Result, ok, err, panic, keystore, already_encrypted, invalid_clear_key, not_encrypted,
  wrong_passphrase, no_private_key,
}
use btcwallet.Keystore.Address.{Bytes, bytes_equal, Crypto, BtcAddress}

-- A call on an address returns a result, and leaves the address as the call made it.
module _ (c : Crypto) where
  -- `encrypt`
  unfoldable pub encrypt : Bytes → BtcAddress → Result (Unit {0}) × BtcAddress
  encrypt key a =
      if a.flags.encrypted
      then (err (keystore already_encrypted), a)
      else if not (length a.priv_key_ct == 32)
      then (err (keystore invalid_clear_key), a)
      else elim (c.new_cipher key) [
        | ok _ ↦ (
          ok tt,
          record a {
            priv_key = c.cfb_encrypt key a.init_vector a.priv_key_ct;
            flags = record a.flags { has_priv_key = true; encrypted = true };
          },
        )
        | err e ↦ (err e, a)
        | panic ↦ (panic, a)
      ]

  -- What `unlock` does with the decrypted key.
  abbrev pub use_key : Bytes → BtcAddress → Result Bytes × BtcAddress
  use_key k a =
      if length a.priv_key_ct == 32
      then if bytes_equal a.priv_key_ct k
        then (ok a.priv_key_ct, a)
        else (err (keystore wrong_passphrase), a)
      else let p = c.scalar_base_mult k in
        if p.x == a.pub_key.x && p.y == a.pub_key.y
        then (ok k, record a { priv_key_ct = k })
        else (err (keystore wrong_passphrase), a)

  -- `unlock`
  unfoldable pub unlock : Bytes → BtcAddress → Result Bytes × BtcAddress
  unfolding bytes_equal
  unlock key a =
      if not a.flags.encrypted then (err (keystore not_encrypted), a) else elim (c.new_cipher key) [
        | ok _ ↦ use_key (c.cfb_decrypt key a.init_vector a.priv_key) a
        | err e ↦ (err e, a)
        | panic ↦ (panic, a)
      ]

  -- `changeEncryptionKey` after `unlock`; `random` is what `rand.Read` gives for the new vector.
  abbrev pub encrypt_again :
      Bytes → Result Bytes → Result Bytes × BtcAddress → Result (Unit {0}) × BtcAddress
  encrypt_again new_key random (ok k, a) = elim (c.new_cipher new_key) [
    | ok _ ↦ elim random [
      | ok iv ↦ (ok tt, record a { init_vector = iv; priv_key = c.cfb_encrypt new_key iv k })
      | err e ↦ (err e, a)
      | panic ↦ (panic, a)
    ]
    | err e ↦ (err e, a)
    | panic ↦ (panic, a)
  ]
  encrypt_again new_key random (err e, a) = (err e, a)
  encrypt_again new_key random (panic, a) = (panic, a)

  -- `changeEncryptionKey`
  unfoldable pub change_encryption_key :
      Bytes → Bytes → Result Bytes → BtcAddress → Result (Unit {0}) × BtcAddress
  unfolding unlock
  change_encryption_key old_key new_key random a =
      if not a.flags.has_priv_key
      then (err (keystore no_private_key), a)
      else if not a.flags.encrypted
      then (err (keystore not_encrypted), a)
      else encrypt_again new_key random (unlock old_key a)

-- `lock`
unfoldable pub lock : BtcAddress → Result (Unit {0}) × BtcAddress
lock a =
    if not a.flags.encrypted
    then (err (keystore not_encrypted), a)
    else (ok tt, record a { priv_key_ct = [] })
