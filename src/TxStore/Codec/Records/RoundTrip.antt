-- ===== src/TxStore/Codec/Records/RoundTrip.antt =====
-- What is written of a transaction record is read back.
use mathlib.Core.Logic.{◌≢◌}
use btcwallet.Prelude.{
  ℕ, ◌^◌, ◌<◌, ◌≡◌, refl, ap, Bool, true, false, Option, none, some, List, [], ◌∷◌, map, arith,
  length, All, if◌then◌else◌,
}
use btcwallet.Prelude.Int.{
  pos, negsuc, to_unsigned, two_32, IsInt64, to_unsigned_lt32, to_unsigned_lt64, wrap64_lem,
}
use btcwallet.TxStore.Types.{
  MsgTx, Credit, Debits, TxRecord, BlockTxKey, BlockOutputKey, ok, unix_time, elems, as_slice,
}
use btcwallet.Bytes.{put_uint}
use btcwallet.Reader.{read_uint, mid, read_list, write_list}
use btcwallet.Reader.Laws.{
  Decodes, Decodes-eq, >>=-Decodes, last-Decodes, only-Decodes, lift-Decodes, mid-Decodes,
  pure-Decodes, read_uint-Decodes, read_list-Decodes,
}
use btcwallet.TxStore.Codec.Keys.{
  IsTxKey, IsOutputKey, read_block_tx_key-Decodes, read_block_output_key-Decodes,
  read_block_output_key, write_block_output_key,
}
use btcwallet.TxStore.Codec.Records.{
  Wire, read_msg_tx, byte_marks_valid_pointer, byte_as_bool, read_debits, read_marked_debits,
  read_spent_by, read_marked_spent_by, read_valid_credit, read_credit, read_tx_record, write_debits,
  write_spent_by, write_credit, write_tx_record,
}

-- What the round trip relies on: btcwire reads back a valid transaction that it serialized, and
-- its size is the number of bytes that the serialization has.
pub record IsFaithfulWire (w : Wire) (IsValid : MsgTx → Type 0) : Type 0 where
  pub decodes : (m : MsgTx) → IsValid m → Decodes w.deserialize (w.serialize m) m
  pub sized : (m : MsgTx) → IsValid m → w.serialize_size m ≡ length (w.serialize m)

abbrev IsStorableSpentBy : Option BlockTxKey → Type 0
IsStorableSpentBy none = Unit
IsStorableSpentBy (some k) = IsTxKey k

abbrev IsStorableCredit : Option Credit → Type 0
IsStorableCredit none = Unit
IsStorableCredit (some c) = IsStorableSpentBy c.spent_by

abbrev IsStorableDebits : Option Debits → Type 0
IsStorableDebits none = Unit
IsStorableDebits (some d) =
    IsInt64 d.amount × (length (elems d.spends) < two_32) × All IsOutputKey (elems d.spends)

-- The records whose numbers fit the fields that they are written to.
pub record IsStorable (IsValid : MsgTx → Type 0) (t : TxRecord) : Type 0 where
  pub valid : IsValid t.tx.msg_tx
  pub debits_fit : IsStorableDebits t.debits
  pub credits_count : length t.credits < two_32
  pub credits_fit : All IsStorableCredit t.credits
  pub time_fits : IsInt64 t.received.sec

abbrev debits_read_back : Option Debits → Option Debits
debits_read_back none = none
debits_read_back (some d) = some (record d { spends = as_slice (elems d.spends) })

-- What is read of a written record: the index as an unsigned word, an empty slice of spends as
-- nil, and the time in whole seconds.
abbrev pub read_back : TxRecord → TxRecord
read_back t = record {
  tx = record { msg_tx = t.tx.msg_tx; index = pos (to_unsigned two_32 t.tx.index) };
  debits = debits_read_back t.debits;
  credits = t.credits;
  received = unix_time t.received.sec;
}

word-Decodes : (n : ℕ) {k : ℕ} → k < 256 ^ n → Decodes (mid (read_uint n)) (put_uint n k) k
word-Decodes n h = mid-Decodes (read_uint-Decodes n _ h)

pointer_true : byte_marks_valid_pointer 1 ≡ ok true
unfolding byte_marks_valid_pointer
pointer_true = refl

pointer_false : byte_marks_valid_pointer 0 ≡ ok false
unfolding byte_marks_valid_pointer
pointer_false = refl

bool_byte : (b : Bool) → byte_as_bool (if b then 1 else 0) ≡ ok b
unfolding byte_as_bool
bool_byte true = refl
bool_byte false = refl

flag_fits : (b : Bool) → (if b then 1 else 0) < 256
flag_fits b = ground arith

map_self {ℓ} : {A : Type ℓ} (xs : List A) → map (λ x. x) xs ≡ xs
map_self [] = refl
map_self (x ∷ xs) = ap (λ ys. x ∷ ys) (map_self xs)

read_msg_tx-Decodes :
    (w : Wire) (IsValid : MsgTx → Type 0)
    → IsFaithfulWire w IsValid
    → (m : MsgTx) → IsValid m
    → Decodes (read_msg_tx w) (w.serialize m) m
unfolding read_msg_tx
read_msg_tx-Decodes w IsValid h m v = record {
  run = λ rest. rw ((h.decodes m v).run rest, h.sized m v) refl;
}

read_spends-Decodes :
    (ks : List BlockOutputKey)
    → All IsOutputKey ks
    → Decodes
        (read_list (length ks) read_block_output_key)
        (write_list write_block_output_key ks)
        ks
read_spends-Decodes ks h =
    Decodes-eq (read_list-Decodes _ _ (λ k. k) IsOutputKey ks read_block_output_key-Decodes h)
      (map_self ks)

read_marked_debits-Decodes :
    (d : Option Debits)
    → IsStorableDebits d
    → Decodes read_marked_debits (write_debits d) (debits_read_back d)
unfolding read_marked_debits write_debits read_debits
read_marked_debits-Decodes none h =
    only-Decodes _ (word-Decodes 1 (omega arith)) (lift-Decodes _ pointer_false (pure-Decodes none))
read_marked_debits-Decodes (some d) h = >>=-Decodes _ (word-Decodes 1 (omega arith)) (
    lift-Decodes _ pointer_true (
      Decodes-eq
        (>>=-Decodes _ (word-Decodes 8 (to_unsigned_lt64 d.amount)) (
          >>=-Decodes _ (word-Decodes 4 h.1)
            (last-Decodes _ (read_spends-Decodes (elems d.spends) h.2))))
        (ap (λ a. some (record { amount = a; spends = as_slice (elems d.spends) }))
          (wrap64_lem d.amount h.0))))

read_marked_spent_by-Decodes :
    (k : Option BlockTxKey)
    → IsStorableSpentBy k
    → Decodes read_marked_spent_by (write_spent_by k) k
unfolding read_marked_spent_by write_spent_by read_spent_by
read_marked_spent_by-Decodes none h =
    only-Decodes _ (word-Decodes 1 (omega arith)) (lift-Decodes _ pointer_false (pure-Decodes none))
read_marked_spent_by-Decodes (some k) h =
    >>=-Decodes _ (word-Decodes 1 (omega arith))
      (lift-Decodes _ pointer_true (last-Decodes _ (mid-Decodes (read_block_tx_key-Decodes k h))))

read_credit-Decodes :
    (c : Option Credit) → IsStorableCredit c → Decodes read_credit (write_credit c) c
unfolding read_credit write_credit read_valid_credit
read_credit-Decodes none h =
    only-Decodes _ (read_uint-Decodes 1 _ (omega arith))
      (lift-Decodes _ pointer_false (pure-Decodes none))
read_credit-Decodes (some c) h = >>=-Decodes _ (read_uint-Decodes 1 _ (omega arith)) (
    lift-Decodes _ pointer_true (
      >>=-Decodes _ (word-Decodes 1 (flag_fits c.change)) (
        lift-Decodes _ (bool_byte c.change) (
          >>=-Decodes _ (word-Decodes 1 (omega arith))
            (last-Decodes _ (read_marked_spent_by-Decodes c.spent_by h))))))

read_credits-Decodes :
    (cs : List (Option Credit))
    → All IsStorableCredit cs
    → Decodes (read_list (length cs) read_credit) (write_list write_credit cs) cs
read_credits-Decodes cs h =
    Decodes-eq (read_list-Decodes _ _ (λ c. c) IsStorableCredit cs read_credit-Decodes h)
      (map_self cs)

-- A transaction record whose numbers fit their fields is read back, up to `read_back`: its block
-- index comes back as an unsigned word, an empty slice of spends as nil, and its receive time in
-- whole seconds. What follows it in the input is left. btcwire is to read back the transactions
-- that it writes.
pub read_tx_record-Decodes :
    (w : Wire) (IsValid : MsgTx → Type 0)
    → IsFaithfulWire w IsValid
    → (t : TxRecord) → IsStorable IsValid t
    → Decodes (read_tx_record w) (write_tx_record w t) (read_back t)
unfolding read_tx_record write_tx_record
read_tx_record-Decodes w IsValid wire t h =
    Decodes-eq
      (>>=-Decodes _ (read_uint-Decodes 4 _ (to_unsigned_lt32 t.tx.index)) (
        >>=-Decodes _ (mid-Decodes (read_msg_tx-Decodes w IsValid wire t.tx.msg_tx h.valid)) (
          >>=-Decodes _ (read_marked_debits-Decodes t.debits h.debits_fit) (
            >>=-Decodes _ (word-Decodes 4 h.credits_count) (
              >>=-Decodes _ (read_credits-Decodes t.credits h.credits_fit)
                (last-Decodes _ (word-Decodes 8 (to_unsigned_lt64 t.received.sec))))))))
      (ap (λ s. record (read_back t) { received = unix_time s })
        (wrap64_lem t.received.sec h.time_fits))

-- A record that is not mined, whose index is negative, is never read back with its index.
pub unmined_index_lost :
    (t : TxRecord) (n : ℕ) → t.tx.index ≡ negsuc n → (read_back t).tx.index ≢ t.tx.index
unmined_index_lost t n e p = cc
