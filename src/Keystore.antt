-- ===== src/Keystore.antt =====
-- keystore/keystore.go: the file's version, the recently seen blocks, the addresses and their
-- private keys, the key derivation, the serialized forms, and the key store's own calls.
pub mod Version
pub mod Recent
pub mod Address
pub mod Kdf
pub mod BigInt
pub mod Chain
pub mod Codec
pub mod Entries
pub mod Store
pub mod Chained
pub mod Unlock
pub mod Imports
