-- ===== src/Keystore/Chain.antt =====
-- The deterministic chain of keys: `ChainedPrivKey` and `ChainedPubKey`.
use btcwallet.Prelude.{
  ℕ, ◌*◌, ◌%◌, ◌^◌, ◌<◌, ◌≤◌, ◌≡◌, refl, ap, ◌∙◌, Bool, true, false, not, ◌&&◌, length, arith, ◌==◌,
  if◌then◌else◌,
}
use btcwallet.Errors.{
  Result, ok, err, panic, keystore, invalid_privkey_length, invalid_chaincode_length,
  invalid_pubkey_length,
}
use btcwallet.Keystore.Address.{Bytes, Crypto, Point}
use btcwallet.Keystore.BigInt.{
  set_bytes, big_bytes, pad, big_endian, set_bytes_zero, big_endian-big_bytes, big_endian-pad,
  length-big_bytes, length-pad, mod_below,
}
use btcwallet.Keystore.Kdf.{xor_bytes}

module _ (c : Crypto) where
  abbrev pub chain_xor : Bytes → Bytes → Bytes
  chain_xor pubkey chaincode = xor_bytes (c.double_sha256 pubkey) chaincode

  -- `ChainedPrivKey`
  unfoldable pub chained_priv_key : Bytes → Bytes → Bytes → Result Bytes
  unfolding set_bytes big_bytes pad
  chained_priv_key privkey pubkey chaincode =
      if not (length privkey == 32)
      then err (keystore invalid_privkey_length)
      else if not (length chaincode == 32)
      then err (keystore invalid_chaincode_length)
      else if not (length pubkey == 65) && not (length pubkey == 33)
      then err (keystore invalid_pubkey_length)
      else ok (
          pad 32 (
            big_bytes 32
              ((set_bytes 0 (chain_xor pubkey chaincode) * set_bytes 0 privkey) % c.curve_order)))

  -- The new key, in the form of the old one.
  abbrev pub next_key : Bool → Bytes → Result Point → Result Bytes
  next_key compressed scalar (ok p) =
      if compressed
      then ok (c.serialize_compressed (c.scalar_mult p scalar))
      else ok (c.serialize_uncompressed (c.scalar_mult p scalar))
  next_key compressed scalar (err e) = err e
  next_key compressed scalar panic = panic

  -- `ChainedPubKey`
  unfoldable pub chained_pub_key : Bytes → Bytes → Result Bytes
  chained_pub_key pubkey chaincode =
      if not (length pubkey == 65) && not (length pubkey == 33)
      then err (keystore invalid_pubkey_length)
      else if not (length chaincode == 32)
      then err (keystore invalid_chaincode_length)
      else next_key (length pubkey == 33) (chain_xor pubkey chaincode) (c.parse_pub_key pubkey)

  -- The curve, whose scalars are numbers written from the highest byte: to multiply the public key of
  -- `k` by a scalar gives the public key of any bytes that write the product modulo the order. The
  -- order has at most 256 bits.
  pub record IsGroup : Type 0 where
    pub multiplied :
        (k b m : Bytes)
        → big_endian m ≡ (big_endian b * big_endian k) % c.curve_order
        → c.scalar_mult (c.scalar_base_mult k) b ≡ c.scalar_base_mult m
    pub order_positive : 0 < c.curve_order
    pub order_fits : c.curve_order ≤ 256 ^ 32

  -- The serialized forms of the public key of `k`.
  abbrev pub serialize : Bool → Bytes → Bytes
  serialize compressed k =
      if compressed
      then c.serialize_compressed (c.scalar_base_mult k)
      else c.serialize_uncompressed (c.scalar_base_mult k)

  abbrev next_scalar : Bytes → Bytes → Bytes → Bytes
  next_scalar k pubkey chaincode =
      pad 32
        (big_bytes 32 ((set_bytes 0 (chain_xor pubkey chaincode) * set_bytes 0 k) % c.curve_order))

  chained_priv_key-ok :
      (k pubkey chaincode k' : Bytes)
      → chained_priv_key k pubkey chaincode ≡ ok k'
      → (length chaincode ≡ 32) × (next_scalar k pubkey chaincode ≡ k')
  unfolding chained_priv_key
  chained_priv_key-ok k pubkey chaincode k' e = ground arith

  -- What `ChainedPrivKey` gives writes the product.
  next_scalar-writes :
      IsGroup
      → (k pubkey chaincode : Bytes)
      → big_endian (next_scalar k pubkey chaincode)
        ≡ (big_endian (chain_xor pubkey chaincode) * big_endian k) % c.curve_order
  next_scalar-writes group k pubkey chaincode =
      let b = chain_xor pubkey chaincode in
      let n = (set_bytes 0 b * set_bytes 0 k) % c.curve_order in
      let small : n < 256 ^ 32 =
        mod_below (set_bytes 0 b * set_bytes 0 k) c.curve_order group.order_positive
          group.order_fits in
      big_endian-pad 32 (big_bytes 32 n)
      ∙ big_endian-big_bytes 32 n small
      ∙ rw (set_bytes_zero b, set_bytes_zero k) refl

  next_key_lem :
      IsGroup
      → (compressed : Bool) (k b m : Bytes)
      → big_endian m ≡ (big_endian b * big_endian k) % c.curve_order
      → next_key compressed b (ok (c.scalar_base_mult k)) ≡ ok (serialize compressed m)
  next_key_lem group true k b m h =
      ap (λ q. ok (c.serialize_compressed q)) (group.multiplied k b m h)
  next_key_lem group false k b m h =
      ap (λ q. ok (c.serialize_uncompressed q)) (group.multiplied k b m h)

  form_length :
      (compressed : Bool) (n : ℕ) → n ≡ (if compressed then 33 else 65) → (n == 33) ≡ compressed
  form_length true n h = ground arith
  form_length false n h = ground arith

  chained_pub_key_lem :
      (compressed : Bool) (pubkey chaincode : Bytes)
      → length pubkey ≡ (if compressed then 33 else 65)
      → length chaincode ≡ 32
      → chained_pub_key pubkey chaincode
        ≡ next_key compressed (chain_xor pubkey chaincode) (c.parse_pub_key pubkey)
  unfolding chained_pub_key
  chained_pub_key_lem true pubkey chaincode h l = simp (h, l) refl
  chained_pub_key_lem false pubkey chaincode h l = simp (h, l) refl

  -- For a curve whose scalars are numbers written from the highest byte, of an order of at most 256
  -- bits, a private key, a chaincode of 32 bytes, and the key's public key in the compressed form (33
  -- bytes) or the other (65 bytes), which btcec parses back: `ChainedPrivKey` gives 32 bytes, and
  -- `ChainedPubKey` gives the public key of these, in the same form.
  pub chained_pub_key-chained_priv_key :
      IsGroup
      → (compressed : Bool) (k k' chaincode : Bytes)
      → length (serialize compressed k) ≡ (if compressed then 33 else 65)
      → c.parse_pub_key (serialize compressed k) ≡ ok (c.scalar_base_mult k)
      → chained_priv_key k (serialize compressed k) chaincode ≡ ok k'
      → (length k' ≡ 32)
        × (chained_pub_key (serialize compressed k) chaincode ≡ ok (serialize compressed k'))
  chained_pub_key-chained_priv_key group compressed k k' chaincode l p e =
      let (lc, same) = chained_priv_key-ok k (serialize compressed k) chaincode k' e in
      let sum = chain_xor (serialize compressed k) chaincode in
      (
        rw (← same) (length-pad 32 _ (length-big_bytes 32 _)),
        chained_pub_key_lem compressed (serialize compressed k) chaincode l lc
            ∙ ap (next_key compressed sum) p
            ∙ next_key_lem group compressed k sum k'
                (rw (← same) (next_scalar-writes group k (serialize compressed k) chaincode)),
      )
