-- ===== src/TxStore/Codec/Records.antt =====
-- txRecord and msgTx: ReadFrom and WriteTo.
pub mod Totality
pub mod RoundTrip
use btcwallet.Prelude.{
  ℕ, ◌+◌, Bool, true, false, ◌&&◌, not, Option, none, some, List, [], ◌∷◌, ◌++◌, ◌==◌,
  if◌then◌else◌, length,
}
use btcwallet.Prelude.Int.{ℤ, pos, to_unsigned, to_signed, two_32, two_64}
use btcwallet.TxStore.Types.{
  MsgTx, Tx, Credit, Debits, TxRecord, BlockTxKey, Error, Result, ok, err, panic, eof,
  unexpected_eof, bad_pointer_byte, bad_bool_byte, unix_time, elems, as_slice,
}
use btcwallet.Bytes.{put_uint}
use btcwallet.Reader.{Reader, pure, lift, ◌>>=◌, read_uint, mid, read_list, write_list}
use btcwallet.TxStore.Codec.Keys.{
  read_block_tx_key, write_block_tx_key, read_block_output_key, write_block_output_key,
}

-- btcwire's serialization of a transaction, which the package calls. `deserialize` is given as
-- it runs under the io.TeeReader: the number is the length of the buffer that records the reads.
pub record Wire : Type 0 where
  pub serialize : MsgTx → List ℕ
  pub serialize_size : MsgTx → ℕ
  pub deserialize : Reader MsgTx

abbrev pub is_eof : Error → Bool
is_eof eof = true
is_eof e = false

-- `msgTx.ReadFrom`: it reports the serialized size on success, and the bytes read on an error.
unfoldable pub msg_tx_result : Wire → Result MsgTx × ℕ × List ℕ → Result MsgTx × ℕ × List ℕ
msg_tx_result w (ok m, n, rest) = (ok m, w.serialize_size m, rest)
msg_tx_result w (err e, n, rest) =
    (err (if is_eof e && not (n == 0) then unexpected_eof else e), n, rest)
msg_tx_result w (panic, n, rest) = (panic, n, rest)

unfoldable pub read_msg_tx : Wire → Reader MsgTx
unfolding msg_tx_result
read_msg_tx w s = msg_tx_result w (w.deserialize s)

unfoldable pub byte_marks_valid_pointer : ℕ → Result Bool
byte_marks_valid_pointer b =
    if b == 0 then ok false else if b == 1 then ok true else err bad_pointer_byte

unfoldable pub byte_as_bool : ℕ → Result Bool
byte_as_bool b = if b == 0 then ok false else if b == 1 then ok true else err bad_bool_byte

-- The debits of a record, read if the byte before them says that there are some.
unfoldable pub read_debits : Bool → Reader (Option Debits)
read_debits false = pure none
read_debits true = do
  amount ← mid (read_uint 8)
  spends_count ← mid (read_uint 4)
  spends ← read_list spends_count read_block_output_key
  pure (some (record { amount = to_signed two_64 amount; spends = as_slice spends }))

unfoldable pub read_marked_debits : Reader (Option Debits)
read_marked_debits = do
  debits_byte ← mid (read_uint 1)
  has_debits ← lift (byte_marks_valid_pointer debits_byte)
  read_debits has_debits

unfoldable pub read_spent_by : Bool → Reader (Option BlockTxKey)
read_spent_by false = pure none
read_spent_by true = do key ← mid read_block_tx_key; pure (some key)

unfoldable pub read_marked_spent_by : Reader (Option BlockTxKey)
read_marked_spent_by = do
  spent_byte ← mid (read_uint 1)
  valid_spent_by ← lift (byte_marks_valid_pointer spent_byte)
  read_spent_by valid_spent_by

unfoldable pub read_valid_credit : Bool → Reader (Option Credit)
read_valid_credit false = pure none
read_valid_credit true = do
  change_byte ← mid (read_uint 1)
  change ← lift (byte_as_bool change_byte)
  flags ← mid (read_uint 1)
  spent_by ← read_marked_spent_by
  pure (some (record { change = change; spent_by = spent_by }))

-- One element of the credits slice.
unfoldable pub read_credit : Reader (Option Credit)
read_credit = do
  valid_byte ← read_uint 1
  valid_credit ← lift (byte_marks_valid_pointer valid_byte)
  read_valid_credit valid_credit

-- `txRecord.ReadFrom`
unfoldable pub read_tx_record : Wire → Reader TxRecord
read_tx_record w = do
  tx_index ← read_uint 4
  msg_tx ← mid (read_msg_tx w)
  debits ← read_marked_debits
  credits_count ← mid (read_uint 4)
  credits ← read_list credits_count read_credit
  received ← mid (read_uint 8)
  pure (record {
    tx = record { msg_tx = msg_tx; index = pos tx_index };
    debits = debits;
    credits = credits;
    received = unix_time (to_signed two_64 received);
  })

unfoldable pub write_debits : Option Debits → List ℕ
write_debits none = put_uint 1 0
write_debits (some d) =
    put_uint 1 1
    ++ (put_uint 8 (to_unsigned two_64 d.amount)
        ++ (put_uint 4 (length (elems d.spends))
            ++ write_list write_block_output_key (elems d.spends)))

unfoldable pub write_spent_by : Option BlockTxKey → List ℕ
write_spent_by none = put_uint 1 0
write_spent_by (some key) = put_uint 1 1 ++ write_block_tx_key key

-- The byte after the change flag was once a lock flag, and is written as 0.
unfoldable pub write_credit : Option Credit → List ℕ
unfolding write_spent_by
write_credit none = put_uint 1 0
write_credit (some c) =
    put_uint 1 1
    ++ (put_uint 1 (if c.change then 1 else 0) ++ (put_uint 1 0 ++ write_spent_by c.spent_by))

-- `txRecord.WriteTo`
unfoldable pub write_tx_record : Wire → TxRecord → List ℕ
write_tx_record w t =
    put_uint 4 (to_unsigned two_32 t.tx.index)
    ++ (w.serialize t.tx.msg_tx
        ++ (write_debits t.debits
            ++ (put_uint 4 (length t.credits)
                ++ (write_list write_credit t.credits
                    ++ put_uint 8 (to_unsigned two_64 t.received.sec)))))
