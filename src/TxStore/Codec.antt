-- ===== src/TxStore/Codec.antt =====
-- Serialization of the store (txstore/serialization.go).
pub mod Keys
pub mod Records
pub mod Blocks
pub mod Stores
