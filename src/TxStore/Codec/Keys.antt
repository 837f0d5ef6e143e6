-- ===== src/TxStore/Codec/Keys.antt =====
-- BlockTxKey and BlockOutputKey: ReadFrom and WriteTo.
use btcwallet.Prelude.{ℕ, ◌<◌, ◌≡◌, List, ◌++◌, arith}
use btcwallet.Prelude.Int.{
  pos, pos_part, neg_part, to_unsigned, to_signed, two_32, IsInt32, to_unsigned_lt32, wrap32_lem,
}
use btcwallet.TxStore.Types.{BlockTxKey, BlockOutputKey}
use btcwallet.Bytes.{put_uint}
use btcwallet.Reader.{Reader, pure, ◌>>=◌, read_uint, mid}
use btcwallet.Reader.Laws.{
  IsReader, Decodes, Decodes-eq, >>=-IsReader, >>=-IsInner, mid-IsInner, pure-IsInner,
  read_uint-IsReader, read_uint-Decodes, >>=-Decodes, last-Decodes, mid-Decodes,
}

-- `int(byteOrder.Uint32(b))` keeps the pattern, `int32(…)` reads a sign.
unfoldable pub read_block_tx_key : Reader BlockTxKey
read_block_tx_key = do
  index ← read_uint 4
  height ← mid (read_uint 4)
  pure (record { block_index = pos index; block_height = to_signed two_32 height })

unfoldable pub write_block_tx_key : BlockTxKey → List ℕ
write_block_tx_key k =
    put_uint 4 (to_unsigned two_32 k.block_index) ++ put_uint 4 (to_unsigned two_32 k.block_height)

unfoldable pub read_block_output_key : Reader BlockOutputKey
read_block_output_key = do
  key ← read_block_tx_key
  index ← mid (read_uint 4)
  pure (record { block_tx_key = key; output_index = index })

unfoldable pub write_block_output_key : BlockOutputKey → List ℕ
write_block_output_key k = write_block_tx_key k.block_tx_key ++ put_uint 4 k.output_index

-- The keys that fit their serialized form: a block index of 32 bits, and an int32 height.
pub record IsTxKey (k : BlockTxKey) : Type 0 where
  pub index_sign : neg_part k.block_index ≡ 0
  pub index_fits : pos_part k.block_index < two_32
  pub height_fits : IsInt32 k.block_height

pub record IsOutputKey (k : BlockOutputKey) : Type 0 where
  pub key_fits : IsTxKey k.block_tx_key
  pub output_fits : k.output_index < two_32

pub read_block_tx_key-IsReader : IsReader read_block_tx_key
unfolding read_block_tx_key
read_block_tx_key-IsReader =
    >>=-IsReader (read_uint-IsReader 4)
      (λ i. >>=-IsInner (mid-IsInner (read_uint-IsReader 4)) (λ h. pure-IsInner _))

pub read_block_output_key-IsReader : IsReader read_block_output_key
unfolding read_block_output_key
read_block_output_key-IsReader =
    >>=-IsReader read_block_tx_key-IsReader
      (λ k. >>=-IsInner (mid-IsInner (read_uint-IsReader 4)) (λ i. pure-IsInner _))

tx_key_read_back :
    (k : BlockTxKey)
    → IsTxKey k
    → record {
      block_index = pos (to_unsigned two_32 k.block_index);
      block_height = to_signed two_32 (to_unsigned two_32 k.block_height);
    }
      ≡ k
unfolding to_unsigned
tx_key_read_back k h = ground (arith, wrap32_lem k.block_height h.height_fits)

-- A transaction lookup key that fits its fields is read back as it was written.
pub read_block_tx_key-Decodes :
    (k : BlockTxKey) → IsTxKey k → Decodes read_block_tx_key (write_block_tx_key k) k
unfolding read_block_tx_key write_block_tx_key
read_block_tx_key-Decodes k h =
    Decodes-eq
      (>>=-Decodes _ (read_uint-Decodes 4 _ (to_unsigned_lt32 k.block_index))
        (last-Decodes _ (mid-Decodes (read_uint-Decodes 4 _ (to_unsigned_lt32 k.block_height)))))
      (tx_key_read_back k h)

-- An output lookup key that fits its fields is read back as it was written.
pub read_block_output_key-Decodes :
    (k : BlockOutputKey)
    → IsOutputKey k
    → Decodes read_block_output_key (write_block_output_key k) k
unfolding read_block_output_key write_block_output_key
read_block_output_key-Decodes k h =
    >>=-Decodes _ (read_block_tx_key-Decodes k.block_tx_key h.key_fits)
      (last-Decodes _ (mid-Decodes (read_uint-Decodes 4 k.output_index h.output_fits)))
