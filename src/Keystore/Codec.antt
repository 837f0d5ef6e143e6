-- ===== src/Keystore/Codec.antt =====
-- The serialized forms of a key store's parts: flags, checksums, public keys, scripts, the two kinds
-- of address and the key derivation's parameters.
pub mod Flags
pub mod Addresses
pub mod RoundTrip
use btcwallet.Prelude.{
  ℕ, zero, suc, ◌+◌, ◌-◌, ◌*◌, ◌/◌, ◌%◌, Bool, true, false, ◌&&◌, not, List, [], ◌∷◌, ◌++◌, length,
  take, drop, replicate, ltb, ◌==◌, if◌then◌else◌,
}
use btcwallet.Prelude.Int.{ℤ, to_unsigned, to_signed, two_32, two_64}
use btcwallet.Errors.{
  Error, Result, ok, err, panic, keystore, checksum_mismatch, unencrypted_key,
  unknown_pubkey_format, no_public_key, no_script,
}
use btcwallet.Bytes.{put_uint, get_uint}
use btcwallet.Reader.{Reader, pure, lift, ◌>>=◌, read_full, read_uint}
use btcwallet.Keystore.Address.{
  Bytes, zeros, Crypto, Point, AddrFlags, BtcAddress, ScriptFlags, ScriptAddress, pub_key_bytes,
}

-- A byte of flags, the lowest bit first: `b[0] |= 1 << i` for each flag that is set.
unfoldable pub flag_byte : List Bool → ℕ
flag_byte [] = 0
flag_byte (b ∷ bs) = (if b then 1 else 0) + 2 * flag_byte bs

-- `b[0]&(1<<i) != 0`
unfoldable pub has_bit : ℕ → Bytes → Bool
has_bit i [] = false
has_bit zero (b ∷ bs) = b % 2 == 1
has_bit (suc i) (b ∷ bs) = has_bit i (b / 2 ∷ bs)

-- Eight bytes, of which the first is used.
unfoldable pub flag_bytes : List Bool → Bytes
unfolding flag_byte
flag_bytes bs = flag_byte bs ∷ replicate 7 0

pub record WalletFlags : Type 0 where
  pub use_encryption : Bool
  pub watching_only : Bool

-- `walletFlags.ReadFrom` and `WriteTo`
unfoldable pub read_wallet_flags : Reader WalletFlags
unfolding has_bit
read_wallet_flags = do
  b ← read_full 8
  pure (record { use_encryption = has_bit 0 b; watching_only = has_bit 1 b })

unfoldable pub write_wallet_flags : WalletFlags → Bytes
unfolding flag_bytes
write_wallet_flags f = flag_bytes (f.use_encryption ∷ f.watching_only ∷ [])

abbrev pub addr_flags_of : Bytes → AddrFlags
addr_flags_of b = record {
  has_priv_key = has_bit 0 b;
  has_pub_key = has_bit 1 b;
  encrypted = has_bit 2 b;
  create_priv_key_next_unlock = has_bit 3 b;
  compressed = has_bit 4 b;
  change = has_bit 5 b;
  unsynced = has_bit 6 b;
  partial_sync = has_bit 7 b;
}

-- The key store has no unencrypted private key.
unfoldable pub check_encrypted : {A : Type 0} → AddrFlags → A → Result A
check_encrypted f a =
    if f.has_priv_key && not f.encrypted then err (keystore unencrypted_key) else ok a

-- `addrFlags.ReadFrom` and `WriteTo`
unfoldable pub read_addr_flags : Reader AddrFlags
unfolding has_bit check_encrypted
read_addr_flags = do b ← read_full 8; lift (check_encrypted (addr_flags_of b) (addr_flags_of b))

abbrev pub addr_flag_list : AddrFlags → List Bool
addr_flag_list f =
    f.has_priv_key ∷ f.has_pub_key ∷ f.encrypted ∷ f.create_priv_key_next_unlock ∷ f.compressed
    ∷ f.change ∷ f.unsynced ∷ f.partial_sync ∷ []

unfoldable pub write_addr_flags : AddrFlags → Result Bytes
unfolding flag_bytes check_encrypted
write_addr_flags f = check_encrypted f (flag_bytes (addr_flag_list f))

-- `scriptFlags.ReadFrom` and `WriteTo`
unfoldable pub read_script_flags : Reader ScriptFlags
unfolding has_bit
read_script_flags = do
  b ← read_full 8
  pure (record {
    has_script = has_bit 1 b;
    script_change = has_bit 5 b;
    script_unsynced = has_bit 6 b;
    script_partial_sync = has_bit 7 b;
  })

unfoldable pub write_script_flags : ScriptFlags → Bytes
unfolding flag_bytes
write_script_flags f = flag_bytes (
    false ∷ f.has_script ∷ false ∷ false ∷ false ∷ f.script_change ∷ f.script_unsynced
    ∷ f.script_partial_sync ∷ [])

-- `p2SHScript.ReadFrom` and `WriteTo`
unfoldable pub read_script : Reader Bytes
read_script = do n ← read_uint 4; read_full n

unfoldable pub write_script : Bytes → Bytes
write_script s = put_uint 4 (length s % two_32) ++ s

-- The bytes that follow a public key's format byte, by the format without its oddness.
unfoldable pub key_length : ℕ → Result ℕ
key_length format =
    if format - format % 2 == 4
    then ok 64
    else if format - format % 2 == 2
    then ok 32
    else err (keystore unknown_pubkey_format)

-- `publicKey.ReadFrom`; `WriteTo` writes the bytes as they are.
unfoldable pub read_public_key : Reader Bytes
unfolding key_length
read_public_key = do
  format ← read_full 1
  n ← lift (key_length (get_uint format))
  s ← read_full n
  pure (format ++ s)
