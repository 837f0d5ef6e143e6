-- ===== src/Tests.antt =====
-- Tests: the theorems at concrete inputs.
mod Account
mod Codec
mod Blocks
mod Transactions
mod CreateTx
mod Crypto
mod Addresses
mod KeyStores
mod Keystore
mod Rescan
mod DiskSync
mod Pairs
