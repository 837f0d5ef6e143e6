-- ===== src/TxStore/Codec/Records/Totality.antt =====
-- The readers of records on any input: counting, end of input, and no panic.
use btcwallet.Prelude.{ℕ, ◌+◌, ◌≡◌, refl, ◌≢◌, Bool, true, false, none, List, arith, length}
use btcwallet.TxStore.Types.{MsgTx, Result, ok, err, panic, eof}
use btcwallet.Reader.{lift, read_uint, mid}
use btcwallet.Reader.Laws.{
  IsCounted, IsPanicFree, IsReader, IsInner, pure-IsInner, mid-IsInner, mid_counted-IsInner,
  lift-IsInner, >>=-IsReader, >>=-IsInner, read_uint-IsReader, read_list-IsInner,
}
use btcwallet.TxStore.Codec.Keys.{read_block_tx_key-IsReader, read_block_output_key-IsReader}
use btcwallet.TxStore.Codec.Records.{
  Wire, msg_tx_result, read_msg_tx, byte_marks_valid_pointer, byte_as_bool, read_debits,
  read_marked_debits, read_spent_by, read_marked_spent_by, read_valid_credit, read_credit,
  read_tx_record,
}

-- What the counting relies on: the buffer of the io.TeeReader holds the bytes that were taken, a
-- deserialized transaction has the size that it was read from, and there is no panic.
pub record IsCountedWire (w : Wire) : Type 0 where
  pub counted : IsCounted w.deserialize
  pub sized :
      (s : List ℕ) (m : MsgTx)
      → (w.deserialize s).0 ≡ ok m
      → w.serialize_size m ≡ (w.deserialize s).1
  pub no_panic : IsPanicFree w.deserialize

msg_tx_counted :
    (w : Wire) (p : Result MsgTx × ℕ × List ℕ) (n : ℕ)
    → p.1 + length p.2 ≡ n
    → ((m : MsgTx) → p.0 ≡ ok m → w.serialize_size m ≡ p.1)
    → (msg_tx_result w p).1 + length (msg_tx_result w p).2 ≡ n
unfolding msg_tx_result
msg_tx_counted w (ok m, k, rest) n h sized = omega (arith, sized m refl)
msg_tx_counted w (err e, k, rest) n h sized = h
msg_tx_counted w (panic, k, rest) n h sized = h

msg_tx_no_panic :
    (w : Wire) (p : Result MsgTx × ℕ × List ℕ) → p.0 ≢ panic → (msg_tx_result w p).0 ≢ panic
unfolding msg_tx_result
msg_tx_no_panic w (ok m, k, rest) h e = cc
msg_tx_no_panic w (err x, k, rest) h e = cc
msg_tx_no_panic w (panic, k, rest) h e = h refl

mid-read_msg_tx-IsInner : (w : Wire) → IsCountedWire w → IsInner (mid (read_msg_tx w))
unfolding read_msg_tx
mid-read_msg_tx-IsInner w h =
    mid_counted-IsInner _
      (λ s. msg_tx_counted w (w.deserialize s) (length s) (h.counted s) (h.sized s))
      (λ s. msg_tx_no_panic w (w.deserialize s) (h.no_panic s))

word-IsInner : (n : ℕ) → IsInner (mid (read_uint n))
word-IsInner n = mid-IsInner (read_uint-IsReader n)

pointer_byte_results :
    (b : ℕ) → (byte_marks_valid_pointer b ≢ err eof) × (byte_marks_valid_pointer b ≢ panic)
unfolding byte_marks_valid_pointer
pointer_byte_results b = (λ e. ground arith, λ e. ground arith)

bool_byte_results : (b : ℕ) → (byte_as_bool b ≢ err eof) × (byte_as_bool b ≢ panic)
unfolding byte_as_bool
bool_byte_results b = (λ e. ground arith, λ e. ground arith)

pointer_check-IsInner : (b : ℕ) → IsInner (lift (byte_marks_valid_pointer b))
pointer_check-IsInner b = lift-IsInner (pointer_byte_results b).0 (pointer_byte_results b).1

bool_check-IsInner : (b : ℕ) → IsInner (lift (byte_as_bool b))
bool_check-IsInner b = lift-IsInner (bool_byte_results b).0 (bool_byte_results b).1

read_debits-IsInner : (has : Bool) → IsInner (read_debits has)
unfolding read_debits
read_debits-IsInner false = pure-IsInner none
read_debits-IsInner true = >>=-IsInner (word-IsInner 8) λ amount.
    >>=-IsInner (word-IsInner 4)
      λ n. >>=-IsInner (read_list-IsInner n read_block_output_key-IsReader) λ spends. pure-IsInner _

read_marked_debits-IsInner : IsInner read_marked_debits
unfolding read_marked_debits
read_marked_debits-IsInner =
    >>=-IsInner (word-IsInner 1) λ b. >>=-IsInner (pointer_check-IsInner b) read_debits-IsInner

read_spent_by-IsInner : (has : Bool) → IsInner (read_spent_by has)
unfolding read_spent_by
read_spent_by-IsInner false = pure-IsInner none
read_spent_by-IsInner true =
    >>=-IsInner (mid-IsInner read_block_tx_key-IsReader) λ key. pure-IsInner _

read_marked_spent_by-IsInner : IsInner read_marked_spent_by
unfolding read_marked_spent_by
read_marked_spent_by-IsInner =
    >>=-IsInner (word-IsInner 1) λ b. >>=-IsInner (pointer_check-IsInner b) read_spent_by-IsInner

read_valid_credit-IsInner : (has : Bool) → IsInner (read_valid_credit has)
unfolding read_valid_credit
read_valid_credit-IsInner false = pure-IsInner none
read_valid_credit-IsInner true = >>=-IsInner (word-IsInner 1) λ b.
    >>=-IsInner (bool_check-IsInner b) λ change.
      >>=-IsInner (word-IsInner 1)
        λ flags. >>=-IsInner read_marked_spent_by-IsInner λ spent_by. pure-IsInner _

read_credit-IsReader : IsReader read_credit
unfolding read_credit
read_credit-IsReader =
    >>=-IsReader (read_uint-IsReader 1)
      λ b. >>=-IsInner (pointer_check-IsInner b) read_valid_credit-IsInner

-- On any input `txRecord.ReadFrom` reports as read exactly the bytes that it takes, returns io.EOF
-- only if there was nothing to read, and does not panic, if btcwire's deserializer counts what it
-- takes, gives transactions the size that they were read from, and does not panic.
pub read_tx_record-IsReader : (w : Wire) → IsCountedWire w → IsReader (read_tx_record w)
unfolding read_tx_record
read_tx_record-IsReader w h = >>=-IsReader (read_uint-IsReader 4) λ i.
    >>=-IsInner (mid-read_msg_tx-IsInner w h) λ m. >>=-IsInner read_marked_debits-IsInner λ d.
      >>=-IsInner (word-IsInner 4) λ n.
        >>=-IsInner (read_list-IsInner n read_credit-IsReader)
          λ c. >>=-IsInner (word-IsInner 8) λ t. pure-IsInner _
