-- ===== src/Keystore/Address.antt =====
-- `btcAddress` and `scriptAddress`: their fields, the sync status, the copy for a watching-only key
-- store. An address stands for the 20 bytes of its hash; the network is that of its key store.
pub mod Keys
pub mod Encryption
use mathlib.Core.Path.{subst}
use btcwallet.Prelude.Map.{Eq}
use btcwallet.Prelude.{
  ℕ, ◌≡◌, ◌↔◌, refl, arith, Bool, true, false, ◌&&◌, not, List, [], ◌∷◌, length, replicate, ◌==◌,
  if◌then◌else◌,
}
use btcwallet.Prelude.Int.{ℤ, pos, negsuc, eqb_ℤ}
use btcwallet.Errors.{
  Result, ok, err, panic, keystore, already_encrypted, invalid_clear_key, not_encrypted,
  wrong_passphrase, no_private_key,
}

abbrev pub Bytes : Type 0
Bytes = List ℕ

unfoldable pub bytes_equal : Bytes → Bytes → Bool
bytes_equal [] [] = true
bytes_equal [] (y ∷ ys) = false
bytes_equal (x ∷ xs) [] = false
bytes_equal (x ∷ xs) (y ∷ ys) = x == y && bytes_equal xs ys

bytes_equal_lem : (xs ys : Bytes) → bytes_equal xs ys ≡ true → xs ≡ ys
unfolding bytes_equal
bytes_equal_lem [] [] h = refl
bytes_equal_lem [] (y ∷ ys) h = absurd (cc)
bytes_equal_lem (x ∷ xs) [] h = absurd (cc)
bytes_equal_lem (x ∷ xs) (y ∷ ys) h = ground (arith, bytes_equal_lem xs ys)

bytes_equal_self : (xs : Bytes) → bytes_equal xs xs ≡ true
unfolding bytes_equal
bytes_equal_self [] = refl
bytes_equal_self (x ∷ xs) = ground (arith, bytes_equal_self xs)

pub bytes_equal_iff : (xs ys : Bytes) → (bytes_equal xs ys ≡ true) ↔ (xs ≡ ys)
bytes_equal_iff xs ys =
    (bytes_equal_lem xs ys, λ e. subst (λ zs. bytes_equal xs zs ≡ true) e (bytes_equal_self xs))

instance abbrev pub bytes_eq : Eq Bytes
bytes_eq = record { beq = bytes_equal; beq_iff = bytes_equal_iff }

-- A public key, as the coordinates of its point.
pub record Point : Type 0 where
  pub x : ℕ
  pub y : ℕ

-- What the key store calls of other packages.
--   * crypto/aes and crypto/cipher: `aes.NewCipher` may refuse a key, and a CFB stream turns data
--     under a key and an initialization vector into data of the same length;
--   * btcwire, btcutil, btcscript: digests, and the checks of an address's hash and of a script;
--   * btcec: the curve, and a public key's two serialized forms.
pub record Crypto : Type 0 where
  pub new_cipher : Bytes → Result (Unit {0})
  pub cfb_encrypt : Bytes → Bytes → Bytes → Bytes
  pub cfb_decrypt : Bytes → Bytes → Bytes → Bytes
  pub double_sha256 : Bytes → Bytes
  pub hash160 : Bytes → Bytes
  pub new_address_pub_key_hash : Bytes → Result (Unit {0})
  pub new_address_script_hash : Bytes → Result (Unit {0})
  pub extract_pk_script_addrs : Bytes → Result (Unit {0})
  pub curve_order : ℕ
  pub scalar_base_mult : Bytes → Point
  pub scalar_mult : Point → Bytes → Point
  pub parse_pub_key : Bytes → Result Point
  pub serialize_compressed : Point → Bytes
  pub serialize_uncompressed : Point → Bytes

pub record AddrFlags : Type 0 where
  pub has_priv_key : Bool
  pub has_pub_key : Bool
  pub encrypted : Bool
  pub create_priv_key_next_unlock : Bool
  pub compressed : Bool
  pub change : Bool
  pub unsynced : Bool
  pub partial_sync : Bool

-- `privKeyCT` is the empty list where it is nil.
pub record BtcAddress : Type 0 where
  pub address : Bytes
  pub flags : AddrFlags
  pub chaincode : Bytes
  pub chain_index : ℤ
  pub chain_depth : ℤ
  pub init_vector : Bytes
  pub priv_key : Bytes
  pub pub_key : Point
  pub first_seen : ℤ
  pub last_seen : ℤ
  pub first_block : ℤ
  pub partial_sync_height : ℤ
  pub priv_key_ct : Bytes

pub record ScriptFlags : Type 0 where
  pub has_script : Bool
  pub script_change : Bool
  pub script_unsynced : Bool
  pub script_partial_sync : Bool

-- What btcscript says of the script (its class, its addresses, the signatures that it needs) is
-- computed from the script whenever the address is made, and is not part of the model.
pub record ScriptAddress : Type 0 where
  pub script_hash : Bytes
  pub script_flags : ScriptFlags
  pub script : Bytes
  pub script_first_seen : ℤ
  pub script_last_seen : ℤ
  pub script_first_block : ℤ
  pub script_partial_sync_height : ℤ

pub data WalletAddress : Type 0 where
  btc_address : BtcAddress → WalletAddress
  script_address : ScriptAddress → WalletAddress

pub data SyncStatus : Type 0 where
  unsynced_since partial_sync_at : ℤ → SyncStatus
  full_sync : SyncStatus

abbrev pub root_key_chain_idx : ℤ
root_key_chain_idx = negsuc 0

abbrev pub imported_key_chain_idx : ℤ
imported_key_chain_idx = negsuc 1

-- `Imported`
unfoldable pub imported : WalletAddress → Bool
imported (btc_address a) = eqb_ℤ a.chain_index imported_key_chain_idx
imported (script_address a) = true

-- The two `SyncStatus` methods.
abbrev pub status_of : Bool → Bool → ℤ → ℤ → SyncStatus
status_of unsynced partial_sync first_block height =
    if unsynced && not partial_sync
    then unsynced_since first_block
    else if unsynced && partial_sync
    then partial_sync_at height
    else full_sync

unfoldable pub sync_status : WalletAddress → SyncStatus
sync_status (btc_address a) =
    status_of a.flags.unsynced a.flags.partial_sync a.first_block a.partial_sync_height
sync_status (script_address a) =
    status_of a.script_flags.script_unsynced a.script_flags.script_partial_sync a.script_first_block
      a.script_partial_sync_height

-- The two `setSyncStatus` methods.
abbrev pub set_btc_status : Bool → Bool → ℤ → BtcAddress → BtcAddress
set_btc_status u p height a = record a {
  flags = record a.flags { unsynced = u; partial_sync = p };
  partial_sync_height = height;
}

abbrev pub set_script_status : Bool → Bool → ℤ → ScriptAddress → ScriptAddress
set_script_status u p height a = record a {
  script_flags = record a.script_flags { script_unsynced = u; script_partial_sync = p };
  script_partial_sync_height = height;
}

unfoldable pub set_sync_status : SyncStatus → WalletAddress → WalletAddress
set_sync_status (unsynced_since h) (btc_address a) =
    btc_address (set_btc_status true false (pos 0) a)
set_sync_status (partial_sync_at h) (btc_address a) = btc_address (set_btc_status true true h a)
set_sync_status full_sync (btc_address a) = btc_address (set_btc_status false false (pos 0) a)
set_sync_status (unsynced_since h) (script_address a) =
    script_address (set_script_status true false (pos 0) a)
set_sync_status (partial_sync_at h) (script_address a) =
    script_address (set_script_status true true h a)
set_sync_status full_sync (script_address a) =
    script_address (set_script_status false false (pos 0) a)

abbrev pub zeros : ℕ → Bytes
zeros n = replicate n 0

-- The two `watchingCopy` methods.
unfoldable pub watching_copy : WalletAddress → WalletAddress
watching_copy (btc_address a) = btc_address (record a {
  flags = record {
    has_priv_key = false;
    has_pub_key = true;
    encrypted = false;
    create_priv_key_next_unlock = false;
    compressed = a.flags.compressed;
    change = a.flags.change;
    unsynced = a.flags.unsynced;
    partial_sync = false;
  };
  init_vector = zeros 16;
  priv_key = zeros 32;
  priv_key_ct = [];
})
watching_copy (script_address a) = script_address (record a {
  script_flags = record {
    has_script = false;
    script_change = a.script_flags.script_change;
    script_unsynced = a.script_flags.script_unsynced;
    script_partial_sync = false;
  };
})

-- `pubKeyBytes`
unfoldable pub pub_key_bytes : Crypto → BtcAddress → Bytes
pub_key_bytes c a =
    if a.flags.compressed
    then c.serialize_compressed a.pub_key
    else c.serialize_uncompressed a.pub_key
