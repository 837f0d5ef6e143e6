-- ===== src/TxStore/Codec/Stores/RoundTrip.antt =====
-- What is written of a whole store is read back.
use btcwallet.Prelude.{
  ℕ, ◌^◌, ◌<◌, ◌≡◌, refl, ap, ◌∙◌, true, List, [], ◌∷◌, map, arith, length, All,
}
use btcwallet.Prelude.Int.{two_32}
use btcwallet.TxStore.Types.{MsgTx, TxRecord, OutPoint, ShaHash, ok}
use btcwallet.Bytes.{put_uint}
use btcwallet.Reader.{Reader, read_uint, mid, read_list, write_list}
use btcwallet.Reader.Laws.{
  Decodes, Decodes-eq, >>=-Decodes, only-Decodes, last-Decodes, lift-Decodes, pure-Decodes,
  mid-Decodes, read_uint-Decodes, read_list-Decodes,
}
use btcwallet.TxStore.Codec.Keys.{IsTxKey, read_block_tx_key-Decodes}
use btcwallet.TxStore.Codec.Records.{Wire}
use btcwallet.TxStore.Codec.Records.RoundTrip.{
  IsFaithfulWire, IsStorable, read_back, read_tx_record-Decodes,
}
use btcwallet.TxStore.Codec.Blocks.RoundTrip.{
  IsStorableBlock, block_read_back, read_block_collection-Decodes,
}
use btcwallet.TxStore.Codec.Stores.{
  BlockSpend, UnconfirmedSpend, UnconfirmedContents, StoreContents, has_record, check_record,
  check_version, read_block_spend, read_unconfirmed_spend, read_unconfirmed, read_store,
  write_block_spend, write_unconfirmed_spend, write_unconfirmed, write_store,
}

abbrev IsStorablePoint : OutPoint → Type 0
IsStorablePoint op = (op.hash < 256 ^ 32) × (op.index < two_32)

-- A spender is one of the unconfirmed transactions.
abbrev IsSpender : List TxRecord → ShaHash → Type 0
IsSpender txs sha = (sha < 256 ^ 32) × (has_record sha txs ≡ true)

abbrev IsStorableBlockSpend : List TxRecord → BlockSpend → Type 0
IsStorableBlockSpend txs e = IsStorablePoint e.out_point × IsTxKey e.key × IsSpender txs e.spender

abbrev IsStorableUnconfirmedSpend : List TxRecord → UnconfirmedSpend → Type 0
IsStorableUnconfirmedSpend txs e = IsStorablePoint e.out_point × IsSpender txs e.spender

-- The stores whose numbers fit their fields, and whose recorded spenders are unconfirmed.
pub record IsStorableStore (IsValid : MsgTx → Type 0) (s : StoreContents) : Type 0 where
  pub blocks_count : length s.blocks < two_32
  pub blocks_fit : All (IsStorableBlock IsValid) s.blocks
  pub txs_count : length s.unconfirmed.txs < two_32
  pub txs_fit : All (IsStorable IsValid) s.unconfirmed.txs
  pub block_spends_count : length s.unconfirmed.block_spends < two_32
  pub block_spends_fit : All (IsStorableBlockSpend s.unconfirmed.txs) s.unconfirmed.block_spends
  pub unconfirmed_spends_count : length s.unconfirmed.unconfirmed_spends < two_32
  pub unconfirmed_spends_fit :
      All (IsStorableUnconfirmedSpend s.unconfirmed.txs) s.unconfirmed.unconfirmed_spends

-- The blocks and the unconfirmed records as they are read back.
abbrev pub unconfirmed_read_back : UnconfirmedContents → UnconfirmedContents
unconfirmed_read_back u = record u { txs = map read_back u.txs }

abbrev pub store_read_back : StoreContents → StoreContents
store_read_back s = record {
  blocks = map block_read_back s.blocks;
  unconfirmed = unconfirmed_read_back s.unconfirmed;
}

has_record-read_back :
    (sha : ShaHash) (txs : List TxRecord) → has_record sha (map read_back txs) ≡ has_record sha txs
unfolding has_record
has_record-read_back sha [] = refl
has_record-read_back sha (t ∷ ts) = rw (has_record-read_back sha ts) refl

spender_found :
    (txs : List TxRecord) (sha : ShaHash)
    → IsSpender txs sha
    → check_record (map read_back txs) sha ≡ ok tt
unfolding check_record
spender_found txs sha h = rw (has_record-read_back sha txs ∙ h.1) refl

map_self : {A : Type 0} (xs : List A) → map (λ x. x) xs ≡ xs
map_self [] = refl
map_self (x ∷ xs) = ap (λ ys. x ∷ ys) (map_self xs)

read_block_spend-Decodes :
    (txs : List TxRecord) (e : BlockSpend)
    → IsStorableBlockSpend txs e
    → Decodes (read_block_spend (map read_back txs)) (write_block_spend e) e
unfolding read_block_spend write_block_spend
read_block_spend-Decodes txs e (op, key, spender) = >>=-Decodes _ (read_uint-Decodes 32 _ op.0) (
    >>=-Decodes _ (mid-Decodes (read_uint-Decodes 4 _ op.1)) (
      >>=-Decodes _ (mid-Decodes (read_block_tx_key-Decodes e.key key)) (
        only-Decodes _ (mid-Decodes (read_uint-Decodes 32 _ spender.0))
          (lift-Decodes _ (spender_found txs e.spender spender) (pure-Decodes e)))))

read_unconfirmed_spend-Decodes :
    (txs : List TxRecord) (e : UnconfirmedSpend)
    → IsStorableUnconfirmedSpend txs e
    → Decodes (read_unconfirmed_spend (map read_back txs)) (write_unconfirmed_spend e) e
unfolding read_unconfirmed_spend write_unconfirmed_spend
read_unconfirmed_spend-Decodes txs e (op, spender) = >>=-Decodes _ (read_uint-Decodes 32 _ op.0) (
    >>=-Decodes _ (mid-Decodes (read_uint-Decodes 4 _ op.1)) (
      only-Decodes _ (mid-Decodes (read_uint-Decodes 32 _ spender.0))
        (lift-Decodes _ (spender_found txs e.spender spender) (pure-Decodes e))))

-- Elements that are read back as they are.
same_list-Decodes :
    {A : Type 0} (r : Reader A) (f : A → List ℕ) (P : A → Type 0) (xs : List A)
    → ((x : A) → P x → Decodes r (f x) x)
    → All P xs
    → Decodes (read_list (length xs) r) (write_list f xs) xs
same_list-Decodes r f P xs d h = Decodes-eq (read_list-Decodes r f (λ x. x) P xs d h) (map_self xs)

count-Decodes : (n : ℕ) → n < two_32 → Decodes (mid (read_uint 4)) (put_uint 4 n) n
count-Decodes n h = mid-Decodes (read_uint-Decodes 4 n h)

read_unconfirmed-Decodes :
    (w : Wire) (IsValid : MsgTx → Type 0)
    → IsFaithfulWire w IsValid
    → (s : StoreContents) → IsStorableStore IsValid s
    → Decodes
        (read_unconfirmed w)
        (write_unconfirmed w s.unconfirmed)
        (unconfirmed_read_back s.unconfirmed)
unfolding read_unconfirmed write_unconfirmed
read_unconfirmed-Decodes w IsValid wire s h =
    let u = s.unconfirmed in
    >>=-Decodes _ (read_uint-Decodes 4 _ h.txs_count) (
      >>=-Decodes _
        (read_list-Decodes _ _ read_back (IsStorable IsValid) u.txs
          (read_tx_record-Decodes w IsValid wire) h.txs_fit)
        (>>=-Decodes _ (count-Decodes _ h.block_spends_count) (
          >>=-Decodes _
            (same_list-Decodes _ _ (IsStorableBlockSpend u.txs) u.block_spends
              (read_block_spend-Decodes u.txs) h.block_spends_fit)
            (>>=-Decodes _ (count-Decodes _ h.unconfirmed_spends_count) (
              last-Decodes _ (
                same_list-Decodes _ _ (IsStorableUnconfirmedSpend u.txs) u.unconfirmed_spends
                  (read_unconfirmed_spend-Decodes u.txs) h.unconfirmed_spends_fit))))))

current_version : check_version 4 ≡ ok tt
unfolding check_version
current_version = refl

-- A store whose numbers fit their fields, and whose recorded spenders are all unconfirmed, is
-- read back, up to `store_read_back`, and what follows it in the input is left, if btcwire reads
-- back the transactions that it writes.
pub read_store-Decodes :
    (w : Wire) (IsValid : MsgTx → Type 0)
    → IsFaithfulWire w IsValid
    → (s : StoreContents) → IsStorableStore IsValid s
    → Decodes (read_store w) (write_store w s) (store_read_back s)
unfolding read_store write_store
read_store-Decodes w IsValid wire s h = >>=-Decodes _ (read_uint-Decodes 4 4 (omega arith)) (
    lift-Decodes _ current_version (
      >>=-Decodes _ (count-Decodes _ h.blocks_count) (
        >>=-Decodes _
          (read_list-Decodes _ _ block_read_back (IsStorableBlock IsValid) s.blocks
            (read_block_collection-Decodes w IsValid wire) h.blocks_fit)
          (last-Decodes _ (mid-Decodes (read_unconfirmed-Decodes w IsValid wire s h))))))
