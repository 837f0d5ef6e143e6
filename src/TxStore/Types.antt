-- ===== src/TxStore/Types.antt =====
-- The data of txstore/tx.go: keys, records, blocks, the store and its errors.
--
-- A `*txRecord` and a `*blockTxCollection` are shared: the store's maps and slices hold the
-- pointer, and a write through one of them shows through all. `Store.records` and
-- `Store.collections` are the heaps of the two, and a `RecordRef` or a `CollectionRef` is an
-- address there.
use btcwallet.Prelude.{
  ℕ, ◌≡◌, ◌↔◌, Bool, true, ◌&&◌, Option, none, some, List, [], ◌∷◌, arith, ◌==◌,
}
use btcwallet.Prelude.Int.{ℤ, pos, negsuc, eqb_ℤ, ltb_ℤ}
use btcwallet.Prelude.Map.{Eq, Map, nat_eq}
pub use btcwallet.Prelude.Int.{int_eq}
pub use btcwallet.Errors.{
  BlockTxKey, BlockOutputKey, Error, Result, ok, err, panic, duplicate_insert, inconsistent_store,
  unsupported_version, missing_block, missing_block_tx, missing_debits, missing_credit, index_unset,
  index_set, output_missing, no_debits, eof, unexpected_eof, bad_pointer_byte, bad_bool_byte,
  missing_unconfirmed, map_lengths_differ, wire,
}
use mathlib.Core.Bool.{◌||◌}

-- A time.Time: seconds since the Unix epoch, and the nanoseconds beyond them.
pub record Time : Type 0 where
  pub sec : ℤ
  pub nsec : ℕ

-- `time.Unix(s, 0)`.
abbrev pub unix_time : ℤ → Time
unix_time s = record { sec = s; nsec = 0 }

-- The zero value, midnight of January 1 of the year 1.
abbrev pub zero_time : Time
zero_time = record { sec = negsuc 62135596799; nsec = 0 }

abbrev pub is_zero : Time → Bool
is_zero t = eqb_ℤ t.sec zero_time.sec && t.nsec == 0

abbrev pub before : Time → Time → Bool
before t u = ltb_ℤ t.sec u.sec || (eqb_ℤ t.sec u.sec && ltb_ℤ (pos t.nsec) (pos u.nsec))

-- A hash is the number that its 32 bytes write, lowest byte first.
abbrev pub ShaHash : Type 0
ShaHash = ℕ

pub record OutPoint : Type 0 where
  pub hash : ShaHash
  pub index : ℕ

pub record TxOut : Type 0 where
  pub value : ℤ
  pub pk_script : List ℕ

-- A btcwire.MsgTx as far as the package reads it: its hash, the outpoints that its inputs spend,
-- and its outputs. Every theorem holds for all of them.
pub record MsgTx : Type 0 where
  pub sha : ShaHash
  pub tx_in : List OutPoint
  pub tx_out : List TxOut

-- A btcutil.Tx: the message and the index in its block.
pub record Tx : Type 0 where
  pub msg_tx : MsgTx
  pub index : ℤ

pub record Block : Type 0 where
  pub hash : ShaHash
  pub time : Time
  pub height : ℤ

pub record BlockAmounts : Type 0 where
  pub spendable : ℤ
  pub reward : ℤ

-- `BlockTxKey{BlockHeight: -1}`, the key of what is not mined.
abbrev pub unmined_key : BlockTxKey
unmined_key = record { block_index = pos 0; block_height = negsuc 0 }

pub record Credit : Type 0 where
  pub change : Bool
  pub spent_by : Option BlockTxKey

pub record Debits : Type 0 where
  pub amount : ℤ
  -- The slice is nil until debits of a mined transaction are set, and nil is tested for.
  pub spends : Option (List BlockOutputKey)

-- Ranging over a nil slice is ranging over an empty one.
abbrev pub elems {ℓ} : {A : Type ℓ} → Option (List A) → List A
elems none = []
elems (some xs) = xs

-- What `append` leaves of a nil slice after the elements of a list: nil, if there are none.
abbrev pub as_slice {ℓ} : {A : Type ℓ} → List A → Option (List A)
as_slice [] = none
as_slice (x ∷ xs) = some (x ∷ xs)

pub record TxRecord : Type 0 where
  pub tx : Tx
  pub debits : Option Debits
  pub credits : List (Option Credit)
  pub received : Time

-- `&txRecord{tx: tx}`.
abbrev pub new_record : Tx → TxRecord
new_record t = record { tx = t; debits = none; credits = []; received = zero_time }

abbrev pub RecordRef : Type 0
RecordRef = ℕ

abbrev pub CollectionRef : Type 0
CollectionRef = ℕ

pub record BlockTxCollection : Type 0 where
  pub block : Block
  pub amount_deltas : BlockAmounts
  pub txs : List RecordRef
  pub tx_indexes : Map ℤ ℕ

pub record UnconfirmedStore : Type 0 where
  pub txs : Map ShaHash RecordRef
  pub spent_block_out_points : Map BlockOutputKey RecordRef
  pub spent_block_out_point_keys : Map OutPoint BlockOutputKey
  pub spent_unconfirmed : Map OutPoint RecordRef
  pub previous_outpoints : Map OutPoint RecordRef

pub record Store : Type 0 where
  pub records : List TxRecord
  pub collections : List BlockTxCollection
  pub blocks : List CollectionRef
  pub block_indexes : Map ℤ ℕ
  pub unspent : Map OutPoint BlockTxKey
  pub unconfirmed : UnconfirmedStore

-- `New`.
abbrev pub new : Store
new = record {
  records = [];
  collections = [];
  blocks = [];
  block_indexes = [];
  unspent = [];
  unconfirmed = record {
    txs = [];
    spent_block_out_points = [];
    spent_block_out_point_keys = [];
    spent_unconfirmed = [];
    previous_outpoints = [];
  };
}

-- The exported TxRecord: a lookup key and a pointer to the record, in the store at hand.
pub record TxHandle : Type 0 where
  pub key : BlockTxKey
  pub ref : RecordRef

-- The exported Credit.
pub record CreditHandle : Type 0 where
  pub tx : TxHandle
  pub output_index : ℕ

abbrev pub eqb_out_point : OutPoint → OutPoint → Bool
eqb_out_point a b = a.hash == b.hash && a.index == b.index

pub eqb_out_point_iff : (a b : OutPoint) → (eqb_out_point a b ≡ true) ↔ (a ≡ b)
eqb_out_point_iff a b = ground arith

instance abbrev pub out_point_eq : Eq OutPoint
out_point_eq = record { beq = eqb_out_point; beq_iff = eqb_out_point_iff }

abbrev pub eqb_tx_key : BlockTxKey → BlockTxKey → Bool
eqb_tx_key a b = eqb_ℤ a.block_index b.block_index && eqb_ℤ a.block_height b.block_height

pub eqb_tx_key_iff : (a b : BlockTxKey) → (eqb_tx_key a b ≡ true) ↔ (a ≡ b)
eqb_tx_key_iff a b = ground arith

instance abbrev pub tx_key_eq : Eq BlockTxKey
tx_key_eq = record { beq = eqb_tx_key; beq_iff = eqb_tx_key_iff }

abbrev pub eqb_output_key : BlockOutputKey → BlockOutputKey → Bool
eqb_output_key a b = eqb_tx_key a.block_tx_key b.block_tx_key && a.output_index == b.output_index

pub eqb_output_key_iff : (a b : BlockOutputKey) → (eqb_output_key a b ≡ true) ↔ (a ≡ b)
eqb_output_key_iff a b = ground arith

instance abbrev pub output_key_eq : Eq BlockOutputKey
output_key_eq = record { beq = eqb_output_key; beq_iff = eqb_output_key_iff }
