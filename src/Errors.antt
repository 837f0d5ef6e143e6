-- ===== src/Errors.antt =====
-- Go's `error`: every error that the modelled code returns, of txstore and of keystore, and the
-- outcome of a Go call.
use btcwallet.Prelude.{ℕ}
use btcwallet.Prelude.Int.{ℤ}

pub record BlockTxKey : Type 0 where
  pub block_index : ℤ
  pub block_height : ℤ

pub record BlockOutputKey : Type 0 where
  pub block_tx_key : BlockTxKey
  pub output_index : ℕ

-- The errors of keystore/keystore.go: its variables, and the messages that it makes on the spot.
pub data KeystoreError : Type 0 where
  address_not_found already_encrypted checksum_mismatch duplicate malformed_entry : KeystoreError
  watching_only locked wrong_passphrase : KeystoreError
  unknown_entry_header unknown_network unknown_file_id unencrypted_key not_encrypted : KeystoreError
  too_many_blocks negative_height unused_space unknown_pubkey_format no_public_key no_script :
      KeystoreError
  invalid_privkey_length invalid_chaincode_length invalid_pubkey_length invalid_clear_key :
      KeystoreError
  invalid_key_length invalid_point invalid_hash no_private_key key_unavailable signature_failed :
      KeystoreError
  missing_chained_address not_pubkey_address chain_map_broken address_missing : KeystoreError
  missing_previous_address not_positive name_too_long desc_too_long : KeystoreError
  other_library : ℕ → KeystoreError

-- `wire` stands for the errors of btcwire's deserializer other than the two of package io.
pub data Error : Type 0 where
  duplicate_insert inconsistent_store unsupported_version : Error
  missing_block : ℤ → Error
  missing_block_tx : BlockTxKey → Error
  missing_debits : BlockTxKey → Error
  missing_credit : BlockOutputKey → Error
  index_unset index_set output_missing no_debits : Error
  eof unexpected_eof bad_pointer_byte bad_bool_byte : Error
  missing_unconfirmed : ℕ → Error
  map_lengths_differ : Error
  wire : ℕ → Error
  keystore : KeystoreError → Error

-- A Go call returns a value, returns an error, or panics.
pub data Result {ℓ} (A : Type ℓ) : Type ℓ where
  ok : A → Result A
  err : Error → Result A
  panic : Result A
