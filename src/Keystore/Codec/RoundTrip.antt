-- ===== src/Keystore/Codec/RoundTrip.antt =====
-- The addresses that were written are read back.
use btcwallet.Prelude.{ℕ, ◌^◌, ◌<◌, ◌≡◌, refl, Bool, true, List, [], ◌∷◌, map, length, arith}
use mathlib.Core.Path.{subst}
use btcwallet.Prelude.Int.{
  ℤ, two_32, IsInt32, IsInt64, to_unsigned_lt32, to_unsigned_lt64, wrap32_lem, wrap64_lem,
}
use btcwallet.Errors.{Error, Result, ok, err, panic}
use btcwallet.Bytes.{put_uint}
use btcwallet.Reader.{read_full, read_uint}
use btcwallet.Reader.Laws.{
  Decodes, Decodes-eq, >>=-Decodes, last-Decodes, only-Decodes, lift-Decodes, pure-Decodes,
  read_uint-Decodes, read_full-Decodes,
}
use btcwallet.Keystore.Address.{Bytes, Crypto, zeros, BtcAddress, ScriptAddress, pub_key_bytes}
use btcwallet.Keystore.Codec.{write_addr_flags}
use btcwallet.Keystore.Codec.Flags.{
  read_addr_flags-Decodes, read_script_flags-Decodes, read_script-Decodes, IsKeyForm,
  read_public_key-Decodes,
}
use btcwallet.Keystore.Codec.Addresses.{
  put_int32, put_int64, read_int32, read_int64, wallet_hash, verify_all, require, read_address,
  address_bytes, with_flags, write_address, read_script_address, write_script_address,
}

pub read_int32-Decodes : (z : ℤ) → IsInt32 z → Decodes read_int32 (put_int32 z) z
unfolding read_int32
read_int32-Decodes z h =
    Decodes-eq (last-Decodes _ (read_uint-Decodes 4 _ (to_unsigned_lt32 z))) (wrap32_lem z h)

pub read_int64-Decodes : (z : ℤ) → IsInt64 z → Decodes read_int64 (put_int64 z) z
unfolding read_int64
read_int64-Decodes z h =
    Decodes-eq (last-Decodes _ (read_uint-Decodes 8 _ (to_unsigned_lt64 z))) (wrap64_lem z h)

pub ok_injective : {A : Type 0} {x y : A} → ok x ≡ ok y → x ≡ y
ok_injective h = cc

pub read_sized-Decodes : (n : ℕ) (bs : Bytes) → length bs ≡ n → Decodes (read_full n) bs bs
read_sized-Decodes n bs e = subst (λ k. Decodes (read_full k) bs bs) e (read_full-Decodes bs)

module _ (c : Crypto) where
  -- The digest's first four bytes are bytes.
  abbrev pub IsDigest : Type 0
  IsDigest = (b : Bytes) → wallet_hash c b < 256 ^ 4

  pub record IsStorableAddress (a : BtcAddress) : Type 0 where
    pub address_length : length a.address ≡ 20
    pub chaincode_length : length a.chaincode ≡ 32
    pub init_vector_length : length a.init_vector ≡ 16
    pub priv_key_length : length a.priv_key ≡ 32
    pub index_fits : IsInt64 a.chain_index
    pub depth_fits : IsInt64 a.chain_depth
    pub first_seen_fits : IsInt64 a.first_seen
    pub last_seen_fits : IsInt64 a.last_seen
    pub first_block_fits : IsInt32 a.first_block
    pub partial_fits : IsInt32 a.partial_sync_height
    pub has_key : a.flags.has_pub_key ≡ true
    pub key_form : IsKeyForm (pub_key_bytes c a)
    pub key_parses : c.parse_pub_key (pub_key_bytes c a) ≡ ok a.pub_key
    pub address_known : c.new_address_pub_key_hash a.address ≡ ok tt

  verify_all_self : (bs : List Bytes) → verify_all c (map (λ b. (b, wallet_hash c b)) bs) ≡ ok tt
  unfolding verify_all
  verify_all_self [] = refl
  verify_all_self (b ∷ bs) = ground (arith, verify_all_self bs)

  require-true : {b : Bool} (e : Error) → b ≡ true → require c b e ≡ ok tt
  require-true e h = rw h refl

  checksum-Decodes :
      IsDigest
      → (b : Bytes) → Decodes (read_uint 4) (put_uint 4 (wallet_hash c b)) (wallet_hash c b)
  checksum-Decodes digest b = read_uint-Decodes 4 (wallet_hash c b) (digest b)

  address_bytes-Decodes :
      IsDigest
      → (a : BtcAddress) → IsStorableAddress a
      → {flags : Bytes} → write_addr_flags a.flags ≡ ok flags
      → Decodes (read_address c) (address_bytes c a flags) (record a { priv_key_ct = [] })
  unfolding read_address address_bytes
  address_bytes-Decodes digest a h e =
      >>=-Decodes _ (read_sized-Decodes 20 a.address h.address_length) (
        >>=-Decodes _ (checksum-Decodes digest a.address) (
          >>=-Decodes _ (read_sized-Decodes 4 (zeros 4) refl) (
            >>=-Decodes _ (read_addr_flags-Decodes a.flags e) (
              >>=-Decodes _ (read_sized-Decodes 32 a.chaincode h.chaincode_length) (
                >>=-Decodes _ (checksum-Decodes digest a.chaincode) (
                  >>=-Decodes _ (read_int64-Decodes a.chain_index h.index_fits) (
                    >>=-Decodes _ (read_int64-Decodes a.chain_depth h.depth_fits) (
                      >>=-Decodes _ (read_sized-Decodes 16 a.init_vector h.init_vector_length) (
                        >>=-Decodes _ (checksum-Decodes digest a.init_vector) (
                          >>=-Decodes _ (read_sized-Decodes 32 a.priv_key h.priv_key_length) (
                            >>=-Decodes _ (checksum-Decodes digest a.priv_key) (
                              >>=-Decodes _ (read_public_key-Decodes (pub_key_bytes c a) h.key_form)
                                (>>=-Decodes _ (checksum-Decodes digest (pub_key_bytes c a)) (
                                  >>=-Decodes _ (read_int64-Decodes a.first_seen h.first_seen_fits)
                                    (>>=-Decodes _ (read_int64-Decodes a.last_seen h.last_seen_fits)
                                      (>>=-Decodes _
                                        (read_int32-Decodes a.first_block h.first_block_fits)
                                        (only-Decodes _
                                          (read_int32-Decodes a.partial_sync_height h.partial_fits)
                                          (lift-Decodes _
                                            (verify_all_self (
                                              a.address
                                              ∷ a.chaincode
                                              ∷ a.init_vector
                                              ∷ a.priv_key
                                              ∷ pub_key_bytes c a
                                              ∷ []))
                                            (lift-Decodes _ (require-true _ h.has_key) (
                                              lift-Decodes _ h.key_parses (
                                                lift-Decodes _ h.address_known
                                                  (pure-Decodes _))))))))))))))))))))))

  written :
      (a : BtcAddress) {w : Bytes} (r : Result Bytes)
      → write_addr_flags a.flags ≡ r
      → with_flags c a r ≡ ok w
      → (flags : Bytes) × (write_addr_flags a.flags ≡ ok flags) × (address_bytes c a flags ≡ w)
  written a (ok flags) e h = (flags, e, ok_injective h)
  written a (err x) e h = absurd (cc)
  written a panic e h = absurd (cc)

  write_address_lem :
      (a : BtcAddress) {w : Bytes}
      → write_address c a ≡ ok w
      → (flags : Bytes) × (write_addr_flags a.flags ≡ ok flags) × (address_bytes c a flags ≡ w)
  unfolding write_address
  write_address_lem a e = written a (write_addr_flags a.flags) refl e

  -- For a digest of bytes, and an address whose parts have their lengths and fit their widths, whose
  -- public key has one of the two forms and is one that btcec parses back: when `WriteTo` writes
  -- the address, `ReadFrom` reads it from those bytes, with anything behind them, and takes just
  -- those; only the clear text of the private key is lost.
  pub read_address-write_address :
      IsDigest
      → (a : BtcAddress) → IsStorableAddress a
      → {w : Bytes} → write_address c a ≡ ok w
      → Decodes (read_address c) w (record a { priv_key_ct = [] })
  read_address-write_address digest a h e =
      let (flags, e', same) = write_address_lem a e in
      subst (λ v. Decodes (read_address c) v (record a { priv_key_ct = [] })) same
        (address_bytes-Decodes digest a h e')

  pub record IsStorableScript (a : ScriptAddress) : Type 0 where
    pub hash_length : length a.script_hash ≡ 20
    pub script_length : length a.script < two_32
    pub script_first_seen_fits : IsInt64 a.script_first_seen
    pub script_last_seen_fits : IsInt64 a.script_last_seen
    pub script_first_block_fits : IsInt32 a.script_first_block
    pub script_partial_fits : IsInt32 a.script_partial_sync_height
    pub hash_known : c.new_address_script_hash a.script_hash ≡ ok tt
    pub script_known : c.extract_pk_script_addrs a.script ≡ ok tt
    pub script_there : a.script_flags.has_script ≡ true

  pub read_script_address-Decodes :
      IsDigest
      → (a : ScriptAddress) → IsStorableScript a
      → Decodes (read_script_address c) (write_script_address c a) a
  unfolding read_script_address write_script_address
  read_script_address-Decodes digest a h =
      >>=-Decodes _ (read_sized-Decodes 20 a.script_hash h.hash_length) (
        >>=-Decodes _ (checksum-Decodes digest a.script_hash) (
          >>=-Decodes _ (read_sized-Decodes 4 (zeros 4) refl) (
            >>=-Decodes _ (read_script_flags-Decodes a.script_flags) (
              >>=-Decodes _ (read_script-Decodes a.script h.script_length) (
                >>=-Decodes _ (checksum-Decodes digest a.script) (
                  >>=-Decodes _ (read_int64-Decodes a.script_first_seen h.script_first_seen_fits) (
                    >>=-Decodes _ (read_int64-Decodes a.script_last_seen h.script_last_seen_fits) (
                      >>=-Decodes _
                        (read_int32-Decodes a.script_first_block h.script_first_block_fits)
                        (only-Decodes _
                          (read_int32-Decodes a.script_partial_sync_height h.script_partial_fits)
                          (lift-Decodes _ (verify_all_self (a.script_hash ∷ a.script ∷ [])) (
                            lift-Decodes _ h.hash_known (
                              lift-Decodes _ (require-true _ h.script_there)
                                (lift-Decodes _ h.script_known (pure-Decodes a))))))))))))))
