-- ===== src/Keystore/Address/Encryption.antt =====
-- What `encrypt`, `unlock`, `lock` and `changeEncryptionKey` do together.
use btcwallet.Prelude.{
  ◌≡◌, refl, ap, ◌∙◌, ◌⊎◌, inl, inr, true, false, ◌&&◌, [], arith, length, ◌==◌, Bool-cases,
}
use btcwallet.Errors.{Result, ok, err, keystore, wrong_passphrase}
use btcwallet.Keystore.Address.{Bytes, Point, Crypto, BtcAddress}
use btcwallet.Keystore.Address.Keys.{
  encrypt, use_key, unlock, encrypt_again, change_encryption_key, lock,
}

-- The address has an encrypted private key, and no clear text of it.
pub record IsLocked (a : BtcAddress) : Type 0 where
  pub encrypted : a.flags.encrypted ≡ true
  pub has_key : a.flags.has_priv_key ≡ true
  pub no_clear_text : a.priv_key_ct ≡ []

same_point : {p q : Point} → (p.x == q.x && p.y == q.y) ≡ true → p ≡ q
same_point h = ground arith

-- `cipher.NewCFBDecrypter` undoes `cipher.NewCFBEncrypter` under the same key and vector.
abbrev pub IsInverted : Crypto → Type 0
IsInverted c = (key iv clear : Bytes) → c.cfb_decrypt key iv (c.cfb_encrypt key iv clear) ≡ clear

module _ (c : Crypto) where
  use_key-own :
      (k : Bytes) (a : BtcAddress)
      → a.priv_key_ct ≡ []
      → c.scalar_base_mult k ≡ a.pub_key
      → use_key c k a ≡ (ok k, record a { priv_key_ct = k })
  use_key-own k a empty own = rw (empty, own) (ground arith)

  unlock_lem :
      (key : Bytes) (a : BtcAddress)
      → a.flags.encrypted ≡ true
      → c.new_cipher key ≡ ok tt
      → unlock c key a ≡ use_key c (c.cfb_decrypt key a.init_vector a.priv_key) a
  unfolding unlock
  unlock_lem key a e fits = simp (e, fits) refl

  abbrev encrypted_with : Bytes → BtcAddress → BtcAddress
  encrypted_with key a = record a {
    priv_key = c.cfb_encrypt key a.init_vector a.priv_key_ct;
    flags = record a.flags { has_priv_key = true; encrypted = true };
  }

  encrypt_lem :
      (key : Bytes) (a : BtcAddress)
      → a.flags.encrypted ≡ false
      → length a.priv_key_ct ≡ 32
      → c.new_cipher key ≡ ok tt
      → encrypt c key a ≡ (ok tt, encrypted_with key a)
  unfolding encrypt
  encrypt_lem key a e l fits = simp (e, l, fits) refl

  lock_lem :
      (a : BtcAddress) → a.flags.encrypted ≡ true → lock a ≡ (ok tt, record a { priv_key_ct = [] })
  unfolding lock
  lock_lem a e = simp e refl

  -- For a cipher whose decryption undoes its encryption, and that takes the key, and an address that
  -- is not encrypted and has the 32 bytes of its own private key: `encrypt` succeeds, and when
  -- the address is locked after it, `unlock` with the same key gives the private key and puts it back.
  pub unlock-encrypt :
      IsInverted c
      → (key : Bytes) (a : BtcAddress) → a.flags.encrypted ≡ false
      → length a.priv_key_ct ≡ 32
      → c.new_cipher key ≡ ok tt
      → c.scalar_base_mult a.priv_key_ct ≡ a.pub_key
      → ((encrypt c key a).0 ≡ ok tt)
        × (unlock c key (lock (encrypt c key a).1).1 ≡ (ok a.priv_key_ct, (encrypt c key a).1))
  unlock-encrypt inverted key a e l fits own =
      let locked : BtcAddress = record (encrypted_with key a) { priv_key_ct = [] } in
      rw (encrypt_lem key a e l fits, lock_lem (encrypted_with key a) refl)
        (
          refl,
          unlock_lem key locked refl fits
              ∙ rw (inverted key a.init_vector a.priv_key_ct)
                  (use_key-own a.priv_key_ct locked refl own),
        )

  -- What `unlock` finds out about a key, on every outcome.
  use_key-cases :
      (k : Bytes) (a : BtcAddress)
      → a.priv_key_ct ≡ []
      → ((use_key c k a ≡ (ok k, record a { priv_key_ct = k }))
          × (c.scalar_base_mult k ≡ a.pub_key))
        ⊎ (use_key c k a ≡ (err (keystore wrong_passphrase), a))
  use_key-cases k a empty =
      elim (Bool-cases
        ((c.scalar_base_mult k).x == a.pub_key.x && (c.scalar_base_mult k).y == a.pub_key.y)) [
          | inl own ↦ inl (use_key-own k a empty (same_point own), same_point own)
          | inr other ↦ inr (simp (empty, other) refl)
        ]

  change_lem :
      (old_key new_key : Bytes) (random : Result Bytes) (a : BtcAddress)
      → IsLocked a
      → change_encryption_key c old_key new_key random a
        ≡ encrypt_again c new_key random (unlock c old_key a)
  unfolding change_encryption_key
  change_lem old_key new_key random a h = simp (h.has_key, h.encrypted) refl

  -- The address with the private key `k` in clear text, and encrypted under a key and a vector.
  abbrev encrypted_as : Bytes → Bytes → Bytes → BtcAddress → BtcAddress
  encrypted_as key iv k a = record a {
    init_vector = iv;
    priv_key = c.cfb_encrypt key iv k;
    priv_key_ct = k;
  }

  encrypt_again_lem :
      (new_key iv k : Bytes) (a : BtcAddress)
      → c.new_cipher new_key ≡ ok tt
      → encrypt_again c new_key (ok iv) (ok k, record a { priv_key_ct = k })
        ≡ (ok tt, encrypted_as new_key iv k a)
  encrypt_again_lem new_key iv k a fits = rw (encrypt_again, fits) refl

  unlock-encrypted_as :
      IsInverted c
      → (key iv k : Bytes) (a : BtcAddress) → IsLocked a
      → c.new_cipher key ≡ ok tt
      → c.scalar_base_mult k ≡ a.pub_key
      → (unlock c key (lock (encrypted_as key iv k a)).1).0 ≡ ok k
  unlock-encrypted_as inverted key iv k a h fits own =
      let locked : BtcAddress = record (encrypted_as key iv k a) { priv_key_ct = [] } in
      rw
        (
          lock_lem (encrypted_as key iv k a) h.encrypted,
          unlock_lem key locked h.encrypted fits,
          inverted key iv k,
        )
        (ap (λ r. r.0) (use_key-own k locked refl own))

  -- For a locked address, an encryption key that the cipher takes and the address's own private key:
  -- if `unlock` with the old key gives the private key, `changeEncryptionKey` from the old key to the
  -- new one succeeds, and when the address is locked after it, `unlock` with the new key gives the
  -- same private key; if `unlock` with the old key gives ErrWrongPassphrase, so does
  -- `changeEncryptionKey`, and the address stays as it is.
  pub unlock-change_encryption_key :
      IsInverted c
      → (old_key new_key iv : Bytes) (a : BtcAddress) → IsLocked a
      → c.new_cipher old_key ≡ ok tt
      → c.new_cipher new_key ≡ ok tt
      → let changed : Result (Unit {0}) × BtcAddress =
          change_encryption_key c old_key new_key (ok iv) a in
        ((k : Bytes) × ((unlock c old_key a).0 ≡ ok k)
          × (changed.0 ≡ ok tt)
          × ((unlock c new_key (lock changed.1).1).0 ≡ ok k))
        ⊎ (((unlock c old_key a).0 ≡ err (keystore wrong_passphrase))
            × (changed ≡ (err (keystore wrong_passphrase), a)))
  unlock-change_encryption_key inverted old_key new_key iv a h fits fits' =
      let k : Bytes = c.cfb_decrypt old_key a.init_vector a.priv_key in
      elim (use_key-cases k a h.no_clear_text) [
        | inl (opened, own) ↦
            let e : unlock c old_key a ≡ (ok k, record a { priv_key_ct = k }) =
              unlock_lem old_key a h.encrypted fits ∙ opened in
            let again : change_encryption_key c old_key new_key (ok iv) a
                ≡ (ok tt, encrypted_as new_key iv k a) =
              change_lem old_key new_key (ok iv) a h
              ∙ rw e (encrypt_again_lem new_key iv k a fits') in
            inl (
              k,
              ap (λ r. r.0) e,
              ap (λ r. r.0) again,
              rw again (unlock-encrypted_as inverted new_key iv k a h fits' own),
            )
        | inr wrong ↦
            let e : unlock c old_key a ≡ (err (keystore wrong_passphrase), a) =
              unlock_lem old_key a h.encrypted fits ∙ wrong in
            inr (ap (λ r. r.0) e, change_lem old_key new_key (ok iv) a h ∙ rw e refl)
      ]
