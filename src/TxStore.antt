-- ===== src/TxStore.antt =====
-- The transaction store (txstore/): its data, its serialization and its operations.
pub mod Types
pub mod Codec
pub mod Monad
pub mod Lookup
pub mod Insert
pub mod Conflict
pub mod Mine
pub mod Spend
pub mod Rollback
pub mod Query
