-- ===== src/Tests/Codec.antt =====
-- The readers and writers of txstore/serialization.go at concrete records.
use btcwallet.Prelude.{ℕ, ◌^◌, ◌<◌, ◌≡◌, refl, sym, true, none, some, List, [], ◌∷◌, arith}
use btcwallet.Prelude.Int.{negsuc, pos}
use btcwallet.TxStore.Types.{MsgTx, TxRecord, BlockOutputKey, ok, int_eq}
use btcwallet.Bytes.{put_uint, length-put_uint}
use btcwallet.Reader.{pure, continue_with, ◌>>=◌, read_full, read_uint}
use btcwallet.Reader.Laws.{
  IsReader, Decodes, Decodes-eq, last-Decodes, >>=-IsReader, pure-IsInner, read_uint-IsReader,
  read_uint-Decodes,
}
use btcwallet.TxStore.Codec.Keys.{IsOutputKey}
use btcwallet.TxStore.Codec.Records.{Wire, read_tx_record, write_tx_record}
use btcwallet.TxStore.Codec.Blocks.{BlockContents}
use btcwallet.TxStore.Codec.Blocks.RoundTrip.{IsStorableBlock}
use btcwallet.TxStore.Codec.Stores.{StoreContents, has_record, read_store, write_store}
use btcwallet.TxStore.Codec.Stores.RoundTrip.{IsStorableStore, store_read_back, read_store-Decodes}
use btcwallet.TxStore.Codec.Stores.Totality.{read_store-IsReader}
use btcwallet.TxStore.Codec.Records.Totality.{IsCountedWire}
use btcwallet.TxStore.Codec.Records.RoundTrip.{
  IsFaithfulWire, IsStorable, read_back, read_tx_record-Decodes,
}

-- A serialization of the transactions that have neither inputs nor outputs: their hash.
abbrev bare : ℕ → MsgTx
bare n = record { sha = n; tx_in = []; tx_out = [] }

abbrev bare_wire : Wire
bare_wire = record {
  serialize = λ m. put_uint 4 m.sha;
  serialize_size = λ m. 4;
  deserialize = (do n ← read_uint 4; pure (bare n));
}

abbrev IsBare : MsgTx → Type 0
IsBare m = (m.sha < 256 ^ 4) × (m ≡ bare m.sha)

bare_wire-IsFaithfulWire : IsFaithfulWire bare_wire IsBare
bare_wire-IsFaithfulWire = record {
  decodes =
      λ m (fits, same). Decodes-eq (last-Decodes _ (read_uint-Decodes 4 m.sha fits)) (sym same);
  sized = λ m v. rw (length-put_uint 4 m.sha) refl;
}

bare_wire-IsReader : IsReader bare_wire.deserialize
bare_wire-IsReader = >>=-IsReader (read_uint-IsReader 4) λ n. pure-IsInner _

bare_sized :
    (s : List ℕ) (m : MsgTx) → (bare_wire.deserialize s).0 ≡ ok m → 4 ≡ (bare_wire.deserialize s).1
unfolding ◌>>=◌ read_uint read_full pure continue_with
bare_sized s m e = ground arith

bare_wire-IsCountedWire : IsCountedWire bare_wire
bare_wire-IsCountedWire = record {
  counted = bare_wire-IsReader.counted;
  sized = bare_sized;
  no_panic = bare_wire-IsReader.no_panic;
}

abbrev key : BlockOutputKey
key = record {
  block_tx_key = record { block_index = pos 7; block_height = pos 300000 };
  output_index = 2;
}

key-IsOutputKey : IsOutputKey key
key-IsOutputKey = record {
  key_fits = record {
    index_sign = refl;
    index_fits = omega arith;
    height_fits = (omega arith, omega arith);
  };
  output_fits = omega arith;
}

-- A mined transaction that spends an output, with a spent credit and a nil in its credits.
abbrev mined : TxRecord
mined = record {
  tx = record { msg_tx = bare 77; index = pos 3 };
  debits = some (record { amount = pos 5000; spends = some (key ∷ []) });
  credits =
      none
      ∷ some (record {
        change = true;
        spent_by = some (record { block_index = pos 1; block_height = pos 300001 });
      })
      ∷ [];
  received = record { sec = pos 1390000000; nsec = 12 };
}

mined-IsStorable : IsStorable IsBare mined
mined-IsStorable = record {
  valid = (omega arith, refl);
  debits_fit = ((omega arith, omega arith), omega arith, (key-IsOutputKey, tt));
  credits_count = omega arith;
  credits_fit = (
    tt,
    (
      record {
        index_sign = refl;
        index_fits = omega arith;
        height_fits = (omega arith, omega arith);
      },
      tt,
    ),
  );
  time_fits = (omega arith, omega arith);
}

read_tx_record-Decodes_example :
    Decodes (read_tx_record bare_wire) (write_tx_record bare_wire mined) (read_back mined)
read_tx_record-Decodes_example =
    read_tx_record-Decodes bare_wire IsBare bare_wire-IsFaithfulWire mined mined-IsStorable

abbrev mined_block : BlockContents
mined_block = record {
  block = record {
    hash = 1000;
    time = record { sec = pos 1390000000; nsec = 0 };
    height = pos 300002;
  };
  amount_deltas = record { spendable = negsuc 4999; reward = pos 0 };
  txs = mined ∷ [];
  tx_indexes = [];
}

mined_block-IsStorableBlock : IsStorableBlock IsBare mined_block
mined_block-IsStorableBlock = record {
  hash_fits = omega arith;
  time_fits = (omega arith, omega arith);
  height_fits = (omega arith, omega arith);
  spendable_fits = (omega arith, omega arith);
  reward_fits = (omega arith, omega arith);
  txs_count = omega arith;
  txs_fit = (mined-IsStorable, tt);
}

-- A store with that block, and an unconfirmed transaction that spends an output of it and one of
-- its own change.
abbrev small_store : StoreContents
small_store = record {
  blocks = mined_block ∷ [];
  unconfirmed = record {
    txs = mined ∷ [];
    block_spends =
        record {
          out_point = record { hash = 40; index = 2 };
          key = record { block_index = pos 7; block_height = pos 300000 };
          spender = 77;
        }
        ∷ [];
    unconfirmed_spends = record { out_point = record { hash = 77; index = 0 }; spender = 77 } ∷ [];
  };
}

small_store-IsStorableStore : IsStorableStore IsBare small_store
unfolding has_record
small_store-IsStorableStore = record {
  blocks_count = omega arith;
  blocks_fit = (mined_block-IsStorableBlock, tt);
  txs_count = omega arith;
  txs_fit = (mined-IsStorable, tt);
  block_spends_count = omega arith;
  block_spends_fit = (
    (
      (omega arith, omega arith),
      record {
        index_sign = refl;
        index_fits = omega arith;
        height_fits = (omega arith, omega arith);
      },
      (omega arith, refl),
    ),
    tt,
  );
  unconfirmed_spends_count = omega arith;
  unconfirmed_spends_fit = (((omega arith, omega arith), (omega arith, refl)), tt);
}

read_store-Decodes_example :
    Decodes (read_store bare_wire) (write_store bare_wire small_store) (store_read_back small_store)
read_store-Decodes_example =
    read_store-Decodes bare_wire IsBare bare_wire-IsFaithfulWire small_store
      small_store-IsStorableStore

read_store-IsReader_example : IsReader (read_store bare_wire)
read_store-IsReader_example = read_store-IsReader bare_wire bare_wire-IsCountedWire
