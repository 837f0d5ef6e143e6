-- ===== src/Keystore/Codec/Addresses.antt =====
-- `btcAddress` and `scriptAddress`: ReadFrom and WriteTo, with their checksums.
use btcwallet.Prelude.{ℕ, Bool, List, [], ◌∷◌, ◌++◌, take, ◌==◌, if◌then◌else◌}
use btcwallet.Prelude.Int.{ℤ, to_unsigned, to_signed, two_32, two_64}
use btcwallet.Errors.{
  Error, Result, ok, err, panic, keystore, checksum_mismatch, no_public_key, no_script,
}
use btcwallet.Bytes.{put_uint, get_uint}
use btcwallet.Reader.{Reader, pure, lift, ◌>>=◌, read_full, read_uint}
use btcwallet.Keystore.Address.{Bytes, zeros, Crypto, BtcAddress, ScriptAddress, pub_key_bytes}
use btcwallet.Keystore.Codec.{
  read_addr_flags, write_addr_flags, read_script_flags, write_script_flags, read_script,
  write_script, read_public_key,
}

abbrev pub put_int32 : ℤ → Bytes
put_int32 z = put_uint 4 (to_unsigned two_32 z)

abbrev pub put_int64 : ℤ → Bytes
put_int64 z = put_uint 8 (to_unsigned two_64 z)

unfoldable pub read_int32 : Reader ℤ
read_int32 = do n ← read_uint 4; pure (to_signed two_32 n)

unfoldable pub read_int64 : Reader ℤ
read_int64 = do n ← read_uint 8; pure (to_signed two_64 n)

module _ (c : Crypto) where
  -- `walletHash`
  unfoldable pub wallet_hash : Bytes → ℕ
  wallet_hash b = get_uint (take 4 (c.double_sha256 b))

  -- `verifyAndFix`
  unfoldable pub verify_and_fix : Bytes → ℕ → Result (Unit {0})
  unfolding wallet_hash
  verify_and_fix b chk = if wallet_hash b == chk then ok tt else err (keystore checksum_mismatch)

  -- The loop over the checksums.
  unfoldable pub verify_all : List (Bytes × ℕ) → Result (Unit {0})
  unfolding verify_and_fix
  verify_all [] = ok tt
  verify_all ((b, chk) ∷ checks) = elim (verify_and_fix b chk) [
    | ok _ ↦ verify_all checks
    | err e ↦ err e
    | panic ↦ panic
  ]

  abbrev checksum : Bytes → Bytes
  checksum b = put_uint 4 (wallet_hash b)

  abbrev pub require : Bool → Error → Result (Unit {0})
  require b e = if b then ok tt else err e

  -- `btcAddress.ReadFrom`
  unfoldable pub read_address : Reader BtcAddress
  unfolding verify_all read_int32 read_int64
  read_address = do
    hash ← read_full 20
    chk_hash ← read_uint 4
    version ← read_full 4
    flags ← read_addr_flags
    chaincode ← read_full 32
    chk_chaincode ← read_uint 4
    chain_index ← read_int64
    chain_depth ← read_int64
    init_vector ← read_full 16
    chk_init_vector ← read_uint 4
    priv_key ← read_full 32
    chk_priv_key ← read_uint 4
    pub_key ← read_public_key
    chk_pub_key ← read_uint 4
    first_seen ← read_int64
    last_seen ← read_int64
    first_block ← read_int32
    partial_sync_height ← read_int32
    verified ← lift (
        verify_all (
          (hash, chk_hash)
          ∷ (chaincode, chk_chaincode)
          ∷ (init_vector, chk_init_vector)
          ∷ (priv_key, chk_priv_key)
          ∷ (pub_key, chk_pub_key)
          ∷ []))
    has_pub_key ← lift (require flags.has_pub_key (keystore no_public_key))
    pk ← lift (c.parse_pub_key pub_key)
    checked ← lift (c.new_address_pub_key_hash hash)
    pure (record {
      address = hash;
      flags = flags;
      chaincode = chaincode;
      chain_index = chain_index;
      chain_depth = chain_depth;
      init_vector = init_vector;
      priv_key = priv_key;
      pub_key = pk;
      first_seen = first_seen;
      last_seen = last_seen;
      first_block = first_block;
      partial_sync_height = partial_sync_height;
      priv_key_ct = [];
    })

  -- The bytes of an address, with those of its flags.
  unfoldable pub address_bytes : BtcAddress → Bytes → Bytes
  unfolding wallet_hash pub_key_bytes
  address_bytes a flags =
      a.address
      ++ (checksum a.address
          ++ (zeros 4
              ++ (flags
                  ++ (a.chaincode
                      ++ (checksum a.chaincode
                          ++ (put_int64 a.chain_index
                              ++ (put_int64 a.chain_depth
                                  ++ (a.init_vector
                                      ++ (checksum a.init_vector
                                          ++ (a.priv_key
                                              ++ (checksum a.priv_key
                                                  ++ (pub_key_bytes c a
                                                      ++ (checksum (pub_key_bytes c a)
                                                          ++ (put_int64 a.first_seen
                                                            ++ (put_int64 a.last_seen
                                                            ++ (put_int32 a.first_block
                                                            ++ put_int32
                                                            a.partial_sync_height))))))))))))))))

  abbrev pub with_flags : BtcAddress → Result Bytes → Result Bytes
  with_flags a (ok flags) = ok (address_bytes a flags)
  with_flags a (err e) = err e
  with_flags a panic = panic

  -- `btcAddress.WriteTo`
  unfoldable pub write_address : BtcAddress → Result Bytes
  write_address a = with_flags a (write_addr_flags a.flags)

  -- `scriptAddress.ReadFrom`
  unfoldable pub read_script_address : Reader ScriptAddress
  unfolding verify_all read_int32 read_int64
  read_script_address = do
    hash ← read_full 20
    chk_hash ← read_uint 4
    version ← read_full 4
    flags ← read_script_flags
    script ← read_script
    chk_script ← read_uint 4
    first_seen ← read_int64
    last_seen ← read_int64
    first_block ← read_int32
    partial_sync_height ← read_int32
    verified ← lift (verify_all ((hash, chk_hash) ∷ (script, chk_script) ∷ []))
    checked ← lift (c.new_address_script_hash hash)
    has_script ← lift (require flags.has_script (keystore no_script))
    understood ← lift (c.extract_pk_script_addrs script)
    pure (record {
      script_hash = hash;
      script_flags = flags;
      script = script;
      script_first_seen = first_seen;
      script_last_seen = last_seen;
      script_first_block = first_block;
      script_partial_sync_height = partial_sync_height;
    })

  -- `scriptAddress.WriteTo`
  unfoldable pub write_script_address : ScriptAddress → Bytes
  unfolding wallet_hash
  write_script_address a =
      a.script_hash
      ++ (checksum a.script_hash
          ++ (zeros 4
              ++ (write_script_flags a.script_flags
                  ++ (write_script a.script
                      ++ (checksum a.script
                          ++ (put_int64 a.script_first_seen
                              ++ (put_int64 a.script_last_seen
                                  ++ (put_int32 a.script_first_block
                                      ++ put_int32 a.script_partial_sync_height))))))))
