-- ===== src/Tests/Addresses.antt =====
-- Addresses, their keys and their serialized forms at concrete inputs.
use btcwallet.Prelude.{
  length, ◌≡◌, ◌≢◌, ◌<◌, refl, ◌⊎◌, true, false, none, some, List, [], ◌∷◌, ◌++◌, arith, length,
  replicate, map,
}
use btcwallet.Prelude.Int.{pos, negsuc}
use btcwallet.Errors.{Result, ok, err, keystore, wrong_passphrase}
use btcwallet.Bytes.{put_uint, get_uint}
use btcwallet.Reader.Laws.{Decodes}
use btcwallet.Tests.Crypto.{small, small-IsInverted, small-IsDigest, small-IsGroup}
use btcwallet.Keystore.Address.{Bytes, AddrFlags, BtcAddress, pub_key_bytes}
use btcwallet.Keystore.Address.Keys.{encrypt, unlock, lock, change_encryption_key}
use btcwallet.Keystore.Address.Encryption.{IsLocked, unlock-encrypt, unlock-change_encryption_key}
use btcwallet.Keystore.BigInt.{set_bytes, big_bytes, pad}
use btcwallet.Keystore.Chain.{
  chained_priv_key, chained_pub_key, serialize, chained_pub_key-chained_priv_key,
}
use btcwallet.Keystore.Codec.{write_addr_flags, flag_bytes, flag_byte, key_length}
use btcwallet.Keystore.Codec.Addresses.{read_address, write_address, address_bytes, wallet_hash}
use btcwallet.Keystore.Codec.RoundTrip.{IsStorableAddress, read_address-write_address}
use btcwallet.Keystore.Entries.{
  Entry, addr_entry, addr_comment_entry, read_entries, write_entries, write_entry,
}
use btcwallet.Keystore.Entries.Termination.{read_entries-ends}
use btcwallet.Keystore.Entries.RoundTrip.{
  as_read, storable_addr, storable_comment, read_entries-write_entries,
}

abbrev pub secret_key : Bytes
secret_key = 1 ∷ replicate 31 0

abbrev pub old_key : Bytes
old_key = replicate 32 5

abbrev new_key : Bytes
new_key = replicate 32 6

abbrev pub clear_flags : AddrFlags
clear_flags = record {
  has_priv_key = true;
  has_pub_key = true;
  encrypted = false;
  create_priv_key_next_unlock = false;
  compressed = true;
  change = false;
  unsynced = false;
  partial_sync = false;
}

-- An address with the clear text of its key.
abbrev pub clear : BtcAddress
clear = record {
  address = replicate 20 9;
  flags = clear_flags;
  chaincode = replicate 32 3;
  chain_index = negsuc 0;
  chain_depth = pos 0;
  init_vector = replicate 16 2;
  priv_key = replicate 32 0;
  pub_key = record { x = 1; y = 0 };
  first_seen = pos 1000;
  last_seen = pos 2000;
  first_block = pos 300;
  partial_sync_height = pos 0;
  priv_key_ct = secret_key;
}

-- The same address, encrypted and locked.
abbrev shut : BtcAddress
shut = record clear {
  flags = record clear_flags { encrypted = true };
  priv_key = replicate 31 0 ++ (1 ∷ []);
  priv_key_ct = [];
}

unlock-encrypt_example :
    ((encrypt small old_key clear).0 ≡ ok tt)
    × (unlock small old_key (lock (encrypt small old_key clear).1).1
        ≡ (ok secret_key, (encrypt small old_key clear).1))
unfolding small set_bytes
unlock-encrypt_example = unlock-encrypt small small-IsInverted old_key clear refl refl refl refl

shut-IsLocked : IsLocked shut
shut-IsLocked = record { encrypted = refl; has_key = refl; no_clear_text = refl }

unlock-change_encryption_key_example :
    let changed : Result (Unit {0}) × BtcAddress =
      change_encryption_key small old_key new_key (ok (replicate 16 4)) shut in
    ((k : Bytes) × ((unlock small old_key shut).0 ≡ ok k)
      × (changed.0 ≡ ok tt)
      × ((unlock small new_key (lock changed.1).1).0 ≡ ok k))
    ⊎ (((unlock small old_key shut).0 ≡ err (keystore wrong_passphrase))
        × (changed ≡ (err (keystore wrong_passphrase), shut)))
unfolding small
unlock-change_encryption_key_example =
    unlock-change_encryption_key small small-IsInverted old_key new_key (replicate 16 4) shut
      shut-IsLocked refl refl

abbrev second_key : Bytes
second_key = replicate 31 0 ++ (1 ∷ [])

chained_pub_key-chained_priv_key_example :
    (length second_key ≡ 32)
    × (chained_pub_key small (serialize small true secret_key) (replicate 32 3)
        ≡ ok (serialize small true second_key))
unfolding small set_bytes big_bytes pad put_uint get_uint chained_priv_key
chained_pub_key-chained_priv_key_example =
    chained_pub_key-chained_priv_key small small-IsGroup true secret_key second_key (replicate 32 3)
      refl refl refl

-- An address as it is stored.
shut-IsStorableAddress : IsStorableAddress small shut
unfolding small pub_key_bytes put_uint get_uint key_length
shut-IsStorableAddress = record {
  address_length = refl;
  chaincode_length = refl;
  init_vector_length = refl;
  priv_key_length = refl;
  index_fits = (omega arith, omega arith);
  depth_fits = (omega arith, omega arith);
  first_seen_fits = (omega arith, omega arith);
  last_seen_fits = (omega arith, omega arith);
  first_block_fits = (omega arith, omega arith);
  partial_fits = (omega arith, omega arith);
  has_key = refl;
  key_form = record {
    format = 2;
    point = put_uint 32 1;
    is_whole = refl;
    is_byte = omega arith;
    is_form = refl;
  };
  key_parses = refl;
  address_known = refl;
}

abbrev shut_flags : Bytes
shut_flags = 23 ∷ replicate 7 0

shut_written : write_address small shut ≡ ok (address_bytes small shut shut_flags)
unfolding write_address write_addr_flags flag_bytes flag_byte
shut_written = refl

read_address-write_address_example :
    Decodes (read_address small) (address_bytes small shut shut_flags) shut
read_address-write_address_example =
    read_address-write_address small small-IsDigest shut shut-IsStorableAddress shut_written

abbrev entries : List Entry
entries =
    addr_entry (replicate 20 9) shut ∷ addr_comment_entry (replicate 20 9) (72 ∷ 105 ∷ []) ∷ []

abbrev entry_bytes : Bytes
entry_bytes =
    ((0 ∷ replicate 20 9) ++ address_bytes small shut shut_flags)
    ++ ((1 ∷ replicate 20 9) ++ (2 ∷ 0 ∷ 72 ∷ 105 ∷ []))

entries_written : write_entries small entries ≡ ok entry_bytes
unfolding write_entries write_entry put_uint
entries_written = rw shut_written refl

entries_short : length entry_bytes < 400
unfolding address_bytes pub_key_bytes put_uint wallet_hash small
entries_short = omega arith

read_entries-write_entries_example :
    read_entries small 400 entry_bytes ≡ some (ok (map as_read entries), [])
read_entries-write_entries_example =
    read_entries-write_entries small small-IsDigest entries 400
      (
        storable_addr (replicate 20 9) shut refl shut-IsStorableAddress,
        (storable_comment (replicate 20 9) (72 ∷ 105 ∷ []) refl, tt),
      )
      entries_written entries_short

read_entries-ends_example : read_entries small 4 (1 ∷ 2 ∷ 3 ∷ []) ≢ none
read_entries-ends_example = read_entries-ends small 4 (1 ∷ 2 ∷ 3 ∷ []) (omega arith)
