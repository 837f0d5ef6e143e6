-- ===== src/TxStore/Codec/Blocks.antt =====
-- blockTxCollection: ReadFrom and WriteTo (txstore/serialization.go).
pub mod RoundTrip
pub mod Indexes
use btcwallet.Prelude.{ℕ, zero, suc, ◌+◌, List, [], ◌∷◌, ◌++◌, length}
use btcwallet.Prelude.Int.{ℤ, to_unsigned, to_signed, two_32, two_64}
use btcwallet.Prelude.Map.{Map, insert}
use btcwallet.TxStore.Types.{Block, BlockAmounts, TxRecord, int_eq, unix_time}
use btcwallet.Bytes.{put_uint}
use btcwallet.Reader.{Reader, pure, ◌>>=◌, read_uint, mid, read_list, write_list}
use btcwallet.TxStore.Codec.Records.{Wire, read_tx_record, write_tx_record}

-- A collection with the records that its slice points to, in place of the pointers.
pub record BlockContents : Type 0 where
  pub block : Block
  pub amount_deltas : BlockAmounts
  pub txs : List TxRecord
  pub tx_indexes : Map ℤ ℕ

-- `b.txIndexes[t.tx.Index()] = i`, for each record read.
unfoldable pub index_txs : ℕ → List TxRecord → Map ℤ ℕ → Map ℤ ℕ
index_txs i [] m = m
index_txs i (t ∷ ts) m = index_txs (suc i) ts (insert t.tx.index i m)

-- `blockTxCollection.ReadFrom`, of a collection whose map is empty.
unfoldable pub read_block_collection : Wire → Reader BlockContents
unfolding index_txs
read_block_collection w = do
  hash ← read_uint 32
  time ← mid (read_uint 8)
  height ← mid (read_uint 4)
  spendable ← mid (read_uint 8)
  reward ← mid (read_uint 8)
  tx_count ← mid (read_uint 4)
  txs ← read_list tx_count (read_tx_record w)
  pure (record {
    block = record {
      hash = hash;
      time = unix_time (to_signed two_64 time);
      height = to_signed two_32 height;
    };
    amount_deltas = record {
      spendable = to_signed two_64 spendable;
      reward = to_signed two_64 reward;
    };
    txs = txs;
    tx_indexes = index_txs 0 txs [];
  })

-- `blockTxCollection.WriteTo`
unfoldable pub write_block_collection : Wire → BlockContents → List ℕ
write_block_collection w b =
    put_uint 32 b.block.hash
    ++ (put_uint 8 (to_unsigned two_64 b.block.time.sec)
        ++ (put_uint 4 (to_unsigned two_32 b.block.height)
            ++ (put_uint 8 (to_unsigned two_64 b.amount_deltas.spendable)
                ++ (put_uint 8 (to_unsigned two_64 b.amount_deltas.reward)
                    ++ (put_uint 4 (length b.txs) ++ write_list (write_tx_record w) b.txs)))))
