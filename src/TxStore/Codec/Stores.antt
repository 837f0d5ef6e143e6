-- ===== src/TxStore/Codec/Stores.antt =====
-- unconfirmedStore and Store: ReadFrom and WriteTo (txstore/serialization.go), between the bytes
-- and the contents of the store, in which records stand in place of the pointers to them. A map
-- is the list of its entries.
pub mod RoundTrip
pub mod Totality
use btcwallet.Prelude.{ℕ, Bool, true, false, List, [], ◌∷◌, ◌++◌, ◌==◌, ltb, if◌then◌else◌, length}
use btcwallet.TxStore.Types.{
  OutPoint, BlockTxKey, ShaHash, TxRecord, Result, ok, err, panic, unsupported_version,
  missing_unconfirmed,
}
use btcwallet.Bytes.{put_uint}
use btcwallet.Reader.{Reader, pure, lift, ◌>>=◌, read_uint, mid, read_list, write_list}
use btcwallet.TxStore.Codec.Keys.{read_block_tx_key, write_block_tx_key}
use btcwallet.TxStore.Codec.Records.{Wire, read_tx_record, write_tx_record}
use btcwallet.TxStore.Codec.Blocks.{BlockContents, read_block_collection, write_block_collection}

-- An entry of spentBlockOutPointKeys, with the hash of the record that spentBlockOutPoints has.
pub record BlockSpend : Type 0 where
  pub out_point : OutPoint
  pub key : BlockTxKey
  pub spender : ShaHash

-- An entry of spentUnconfirmed.
pub record UnconfirmedSpend : Type 0 where
  pub out_point : OutPoint
  pub spender : ShaHash

pub record UnconfirmedContents : Type 0 where
  pub txs : List TxRecord
  pub block_spends : List BlockSpend
  pub unconfirmed_spends : List UnconfirmedSpend

pub record StoreContents : Type 0 where
  pub blocks : List BlockContents
  pub unconfirmed : UnconfirmedContents

-- `_, ok := u.txs[txHash]`, of the records read before.
unfoldable pub has_record : ShaHash → List TxRecord → Bool
has_record sha [] = false
has_record sha (t ∷ ts) = if t.tx.msg_tx.sha == sha then true else has_record sha ts

unfoldable pub check_record : List TxRecord → ShaHash → Result (Unit {0})
unfolding has_record
check_record txs sha = if has_record sha txs then ok tt else err (missing_unconfirmed sha)

unfoldable pub read_block_spend : List TxRecord → Reader BlockSpend
unfolding check_record
read_block_spend txs = do
  hash ← read_uint 32
  index ← mid (read_uint 4)
  key ← mid read_block_tx_key
  tx_hash ← mid (read_uint 32)
  found ← lift (check_record txs tx_hash)
  pure (record { out_point = record { hash = hash; index = index }; key = key; spender = tx_hash })

unfoldable pub read_unconfirmed_spend : List TxRecord → Reader UnconfirmedSpend
unfolding check_record
read_unconfirmed_spend txs = do
  hash ← read_uint 32
  index ← mid (read_uint 4)
  tx_hash ← mid (read_uint 32)
  found ← lift (check_record txs tx_hash)
  pure (record { out_point = record { hash = hash; index = index }; spender = tx_hash })

-- `unconfirmedStore.ReadFrom`, up to the maps that it makes of the entries.
unfoldable pub read_unconfirmed : Wire → Reader UnconfirmedContents
unfolding read_block_spend read_unconfirmed_spend
read_unconfirmed w = do
  tx_count ← read_uint 4
  txs ← read_list tx_count (read_tx_record w)
  block_spend_count ← mid (read_uint 4)
  block_spends ← read_list block_spend_count (read_block_spend txs)
  unconfirmed_spend_count ← mid (read_uint 4)
  unconfirmed_spends ← read_list unconfirmed_spend_count (read_unconfirmed_spend txs)
  pure (record { txs = txs; block_spends = block_spends; unconfirmed_spends = unconfirmed_spends })

-- versFastRewrite, the fifth of the constants, and the current version.
abbrev pub vers_fast_rewrite : ℕ
vers_fast_rewrite = 4

unfoldable pub check_version : ℕ → Result (Unit {0})
check_version vers = if ltb vers vers_fast_rewrite then err unsupported_version else ok tt

-- `Store.ReadFrom`, up to the maps that it makes of the blocks.
unfoldable pub read_store : Wire → Reader StoreContents
unfolding check_version read_unconfirmed
read_store w = do
  vers ← read_uint 4
  supported ← lift (check_version vers)
  block_count ← mid (read_uint 4)
  blocks ← read_list block_count (read_block_collection w)
  unconfirmed ← mid (read_unconfirmed w)
  pure (record { blocks = blocks; unconfirmed = unconfirmed })

unfoldable pub write_block_spend : BlockSpend → List ℕ
write_block_spend e =
    put_uint 32 e.out_point.hash
    ++ (put_uint 4 e.out_point.index ++ (write_block_tx_key e.key ++ put_uint 32 e.spender))

unfoldable pub write_unconfirmed_spend : UnconfirmedSpend → List ℕ
write_unconfirmed_spend e =
    put_uint 32 e.out_point.hash ++ (put_uint 4 e.out_point.index ++ put_uint 32 e.spender)

-- `unconfirmedStore.WriteTo`, of maps whose lengths and keys agree.
unfoldable pub write_unconfirmed : Wire → UnconfirmedContents → List ℕ
unfolding write_block_spend write_unconfirmed_spend
write_unconfirmed w u =
    put_uint 4 (length u.txs)
    ++ (write_list (write_tx_record w) u.txs
        ++ (put_uint 4 (length u.block_spends)
            ++ (write_list write_block_spend u.block_spends
                ++ (put_uint 4 (length u.unconfirmed_spends)
                    ++ write_list write_unconfirmed_spend u.unconfirmed_spends))))

-- `Store.WriteTo`
unfoldable pub write_store : Wire → StoreContents → List ℕ
unfolding write_unconfirmed
write_store w s =
    put_uint 4 vers_fast_rewrite
    ++ (put_uint 4 (length s.blocks)
        ++ (write_list (write_block_collection w) s.blocks ++ write_unconfirmed w s.unconfirmed))
