-- ===== src/TxStore/Codec/Blocks/RoundTrip.antt =====
-- What is written of a block's collection is read back.
use btcwallet.Prelude.{◌^◌, ◌<◌, refl, List, [], map, length, All}
use btcwallet.Prelude.Int.{
  ℤ, to_unsigned, two_32, two_64, IsInt32, IsInt64, to_unsigned_lt32, to_unsigned_lt64, wrap32_lem,
  wrap64_lem,
}
use btcwallet.TxStore.Types.{MsgTx, TxRecord, unix_time}
use btcwallet.Bytes.{put_uint}
use btcwallet.Reader.{read_uint, mid, read_list, write_list}
use btcwallet.Reader.Laws.{
  IsReader, Decodes, Decodes-eq, >>=-Decodes, last-Decodes, mid-Decodes, read_uint-Decodes,
  read_list-Decodes, >>=-IsReader, >>=-IsInner, mid-IsInner, pure-IsInner, read_uint-IsReader,
  read_list-IsInner,
}
use btcwallet.TxStore.Codec.Records.{Wire, read_tx_record, write_tx_record}
use btcwallet.TxStore.Codec.Records.Totality.{IsCountedWire, read_tx_record-IsReader}
use btcwallet.TxStore.Codec.Records.RoundTrip.{
  IsFaithfulWire, IsStorable, read_back, read_tx_record-Decodes,
}
use btcwallet.TxStore.Codec.Blocks.{
  BlockContents, index_txs, read_block_collection, write_block_collection,
}

-- The collections whose numbers fit the fields that they are written to.
pub record IsStorableBlock (IsValid : MsgTx → Type 0) (b : BlockContents) : Type 0 where
  pub hash_fits : b.block.hash < 256 ^ 32
  pub time_fits : IsInt64 b.block.time.sec
  pub height_fits : IsInt32 b.block.height
  pub spendable_fits : IsInt64 b.amount_deltas.spendable
  pub reward_fits : IsInt64 b.amount_deltas.reward
  pub txs_count : length b.txs < two_32
  pub txs_fit : All (IsStorable IsValid) b.txs

-- What is read of a written collection: its records as they are read back, with their index map
-- made anew, and the block's time in whole seconds.
abbrev pub block_read_back : BlockContents → BlockContents
block_read_back b =
    let txs = map read_back b.txs in
    let block = b.block in
    record {
      block = record block { time = unix_time b.block.time.sec };
      amount_deltas = b.amount_deltas;
      txs = txs;
      tx_indexes = index_txs 0 txs [];
    }

txs-Decodes :
    (w : Wire) (IsValid : MsgTx → Type 0)
    → IsFaithfulWire w IsValid
    → (txs : List TxRecord) → All (IsStorable IsValid) txs
    → Decodes
        (read_list (length txs) (read_tx_record w))
        (write_list (write_tx_record w) txs)
        (map read_back txs)
txs-Decodes w IsValid wire txs h =
    read_list-Decodes _ _ read_back (IsStorable IsValid) txs (read_tx_record-Decodes w IsValid wire)
      h

long-Decodes :
    (z : ℤ) → Decodes (mid (read_uint 8)) (put_uint 8 (to_unsigned two_64 z)) (to_unsigned two_64 z)
long-Decodes z = mid-Decodes (read_uint-Decodes 8 _ (to_unsigned_lt64 z))

-- A block's collection whose numbers fit their fields is read back, up to `block_read_back`, and
-- what follows it in the input is left, if btcwire reads back the transactions that it writes.
pub read_block_collection-Decodes :
    (w : Wire) (IsValid : MsgTx → Type 0)
    → IsFaithfulWire w IsValid
    → (b : BlockContents) → IsStorableBlock IsValid b
    → Decodes (read_block_collection w) (write_block_collection w b) (block_read_back b)
unfolding read_block_collection write_block_collection
read_block_collection-Decodes w IsValid wire b h =
    Decodes-eq
      (>>=-Decodes _ (read_uint-Decodes 32 _ h.hash_fits) (
        >>=-Decodes _ (long-Decodes b.block.time.sec) (
          >>=-Decodes _ (mid-Decodes (read_uint-Decodes 4 _ (to_unsigned_lt32 b.block.height))) (
            >>=-Decodes _ (long-Decodes b.amount_deltas.spendable) (
              >>=-Decodes _ (long-Decodes b.amount_deltas.reward) (
                >>=-Decodes _ (mid-Decodes (read_uint-Decodes 4 _ h.txs_count))
                  (last-Decodes _ (txs-Decodes w IsValid wire b.txs h.txs_fit))))))))
      (rw
        (
          wrap64_lem b.block.time.sec h.time_fits,
          wrap32_lem b.block.height h.height_fits,
          wrap64_lem b.amount_deltas.spendable h.spendable_fits,
          wrap64_lem b.amount_deltas.reward h.reward_fits,
        )
        refl)

-- On any input `blockTxCollection.ReadFrom` reports as read exactly the bytes that it takes, returns
-- io.EOF only if there was nothing to read, and does not panic, if btcwire's deserializer counts
-- what it takes, gives transactions the size that they were read from, and does not panic.
pub read_block_collection-IsReader :
    (w : Wire) → IsCountedWire w → IsReader (read_block_collection w)
unfolding read_block_collection
read_block_collection-IsReader w h = >>=-IsReader (read_uint-IsReader 32) λ hash.
    >>=-IsInner (mid-IsInner (read_uint-IsReader 8)) λ time.
      >>=-IsInner (mid-IsInner (read_uint-IsReader 4)) λ height.
        >>=-IsInner (mid-IsInner (read_uint-IsReader 8)) λ spendable.
          >>=-IsInner (mid-IsInner (read_uint-IsReader 8)) λ reward.
            >>=-IsInner (mid-IsInner (read_uint-IsReader 4)) λ n.
              >>=-IsInner (read_list-IsInner n (read_tx_record-IsReader w h)) λ txs. pure-IsInner _
