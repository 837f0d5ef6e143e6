-- ===== src/TxStore/Codec/Stores/Totality.antt =====
-- The readers of a whole store on any input: counting, end of input, and no panic.
use btcwallet.Prelude.{ℕ, ◌≢◌, List, arith}
use btcwallet.TxStore.Types.{TxRecord, ShaHash, err, panic, eof}
use btcwallet.Reader.Laws.{
  IsReader, >>=-IsReader, >>=-IsInner, lift-IsInner, mid-IsInner, pure-IsInner, read_uint-IsReader,
  read_list-IsInner,
}
use btcwallet.TxStore.Codec.Keys.{read_block_tx_key-IsReader}
use btcwallet.TxStore.Codec.Records.{Wire}
use btcwallet.TxStore.Codec.Records.Totality.{IsCountedWire, read_tx_record-IsReader}
use btcwallet.TxStore.Codec.Blocks.RoundTrip.{read_block_collection-IsReader}
use btcwallet.TxStore.Codec.Stores.{
  check_record, check_version, read_block_spend, read_unconfirmed_spend, read_unconfirmed,
  read_store,
}

check_record_results :
    (txs : List TxRecord) (sha : ShaHash)
    → (check_record txs sha ≢ err eof) × (check_record txs sha ≢ panic)
unfolding check_record
check_record_results txs sha = (λ e. ground arith, λ e. ground arith)

read_block_spend-IsReader : (txs : List TxRecord) → IsReader (read_block_spend txs)
unfolding read_block_spend
read_block_spend-IsReader txs = >>=-IsReader (read_uint-IsReader 32) λ hash.
    >>=-IsInner (mid-IsInner (read_uint-IsReader 4)) λ index.
      >>=-IsInner (mid-IsInner read_block_tx_key-IsReader) λ key.
        >>=-IsInner (mid-IsInner (read_uint-IsReader 32)) λ sha.
          >>=-IsInner
            (lift-IsInner (check_record_results txs sha).0 (check_record_results txs sha).1)
            λ found. pure-IsInner _

read_unconfirmed_spend-IsReader : (txs : List TxRecord) → IsReader (read_unconfirmed_spend txs)
unfolding read_unconfirmed_spend
read_unconfirmed_spend-IsReader txs = >>=-IsReader (read_uint-IsReader 32) λ hash.
    >>=-IsInner (mid-IsInner (read_uint-IsReader 4)) λ index.
      >>=-IsInner (mid-IsInner (read_uint-IsReader 32)) λ sha.
        >>=-IsInner (lift-IsInner (check_record_results txs sha).0 (check_record_results txs sha).1)
          λ found. pure-IsInner _

read_unconfirmed-IsReader : (w : Wire) → IsCountedWire w → IsReader (read_unconfirmed w)
unfolding read_unconfirmed
read_unconfirmed-IsReader w h = >>=-IsReader (read_uint-IsReader 4) λ n.
    >>=-IsInner (read_list-IsInner n (read_tx_record-IsReader w h)) λ txs.
      >>=-IsInner (mid-IsInner (read_uint-IsReader 4)) λ m.
        >>=-IsInner (read_list-IsInner m (read_block_spend-IsReader txs)) λ es.
          >>=-IsInner (mid-IsInner (read_uint-IsReader 4)) λ k.
            >>=-IsInner (read_list-IsInner k (read_unconfirmed_spend-IsReader txs))
              λ us. pure-IsInner _

check_version_results : (vers : ℕ) → (check_version vers ≢ err eof) × (check_version vers ≢ panic)
unfolding check_version
check_version_results vers = (λ e. ground arith, λ e. ground arith)

-- On any input `Store.ReadFrom` reports as read exactly the bytes that it takes, returns
-- io.EOF only if there was nothing to read, and does not panic, if btcwire's deserializer counts
-- what it takes, gives transactions the size that they were read from, and does not panic.
pub read_store-IsReader : (w : Wire) → IsCountedWire w → IsReader (read_store w)
unfolding read_store
read_store-IsReader w h = >>=-IsReader (read_uint-IsReader 4) λ vers.
    >>=-IsInner (lift-IsInner (check_version_results vers).0 (check_version_results vers).1)
      λ supported. >>=-IsInner (mid-IsInner (read_uint-IsReader 4)) λ n.
        >>=-IsInner (read_list-IsInner n (read_block_collection-IsReader w h))
          λ blocks. >>=-IsInner (mid-IsInner (read_unconfirmed-IsReader w h)) λ u. pure-IsInner _
