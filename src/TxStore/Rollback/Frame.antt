-- ===== src/TxStore/Rollback/Frame.antt =====
-- Detaching a block leaves the slice of blocks and the collections as they are.
use btcwallet.Prelude.{
  ℕ, refl, Bool, true, false, Option, none, some, List, [], ◌∷◌, get_elem?, if◌then◌else◌,
}
use btcwallet.Prelude.Int.{ℤ, pos, eqb_ℤ}
use btcwallet.Prelude.Map.{lookup, erase, nat_eq}
use btcwallet.TxStore.Types.{
  Store, Tx, TxRecord, UnconfirmedStore, out_point_eq, output_key_eq, int_eq, Credit, OutPoint,
  BlockTxKey, BlockOutputKey, inconsistent_store, missing_credit, missing_debits, BlockTxCollection,
  CollectionRef, RecordRef, unmined_key, elems,
}
use btcwallet.TxStore.Monad.{
  M, get_record, get_collection, set_spent_by, update_unconfirmed, set_record, modify, each, crash,
  ◌>>=◌,
}
use btcwallet.TxStore.Monad.Frame.{
  Keeps, try-Keeps, gets-Keeps, pure-Keeps, fail-Keeps, crash-Keeps, modify-Keeps, >>=-Keeps,
  each-Keeps, each_indexed-Keeps, option-Keeps,
}
use btcwallet.TxStore.Lookup.{lookup_block_tx, record_credit}
use btcwallet.TxStore.Conflict.{drop_block_spend}
use btcwallet.TxStore.Mine.{set_index}
use btcwallet.TxStore.Spend.{spend_mined, spend_unmined, is_unmined}
use btcwallet.TxStore.Rollback.{
  swap_spend, swap_debits, detach_spender, detach_credit, detach_spend, clear_spends, detach_debits,
  add_unconfirmed, detach_tx, detach_block,
}

-- The slice of blocks, and the collections that it points to.
abbrev pub blocks_view : Store → List BlockTxCollection × List CollectionRef
blocks_view s = (s.collections, s.blocks)

abbrev pub KeepsBlocks : M (Unit {0}) → Type 0
KeepsBlocks m = Keeps blocks_view m

if-Keeps :
    (b : Bool) {m n : M (Unit {0})}
    → KeepsBlocks m
    → KeepsBlocks n
    → KeepsBlocks (if b then m else n)
if-Keeps true h k = h
if-Keeps false h k = k

set_record-Keeps : (r : RecordRef) (t : TxRecord) → KeepsBlocks (modify (set_record r t))
set_record-Keeps r t = modify-Keeps (set_record r t) (λ s. refl)

unconfirmed-Keeps :
    (f : UnconfirmedStore → UnconfirmedStore) → KeepsBlocks (modify (update_unconfirmed f))
unconfirmed-Keeps f = modify-Keeps (update_unconfirmed f) (λ s. refl)

set_spent_by-KeepsBlocks :
    (r : RecordRef) (i : ℕ) (k : Option BlockTxKey) → KeepsBlocks (set_spent_by r i k)
unfolding set_spent_by
set_spent_by-KeepsBlocks r i k = >>=-Keeps _ _ (try-Keeps (get_record r)) λ (t : TxRecord).
    option-Keeps (get_elem? t.credits i) _ _ crash-Keeps
      λ o. option-Keeps o _ _ crash-Keeps λ c. modify-Keeps _ (λ s. refl)

set_index-Keeps : (r : RecordRef) (i : ℤ) → KeepsBlocks (set_index r i)
unfolding set_index
set_index-Keeps r i = >>=-Keeps _ _ (try-Keeps (get_record r)) λ t. set_record-Keeps r _

swap_debits-Keeps : (r : RecordRef) (p c : BlockOutputKey) → KeepsBlocks (swap_debits r p c)
unfolding swap_debits
swap_debits-Keeps r p c = >>=-Keeps _ _ (try-Keeps (get_record r)) λ (t : TxRecord).
    option-Keeps t.debits _ _ crash-Keeps λ d.
      option-Keeps (swap_spend p c (elems d.spends)) _ _ (fail-Keeps (missing_credit p))
        λ ks. set_record-Keeps r _

detach_spender-Keeps :
    (op : OutPoint) (prev : BlockOutputKey) (k : BlockTxKey)
    → KeepsBlocks (detach_spender op prev k)
unfolding detach_spender
detach_spender-Keeps op prev k =
    if-Keeps (is_unmined k)
      (>>=-Keeps _ _ (gets-Keeps (λ s. lookup prev s.unconfirmed.spent_block_out_points)) λ found.
        option-Keeps found _ _ (fail-Keeps inconsistent_store)
          λ spender. unconfirmed-Keeps (λ u. spend_unmined op spender (drop_block_spend op prev u)))
      (>>=-Keeps _ _ (try-Keeps (lookup_block_tx k)) λ spender.
        >>=-Keeps _ _ (try-Keeps (get_record spender)) λ (t : TxRecord).
          option-Keeps t.debits _ _ (fail-Keeps (missing_debits k)) λ d.
            swap_debits-Keeps spender prev
              (record { block_tx_key = unmined_key; output_index = 0 }))

detach_credit-Keeps :
    (tx : Tx) (key : BlockTxKey) (i : ℕ) (c : Option Credit)
    → KeepsBlocks (detach_credit tx key i c)
unfolding detach_credit
detach_credit-Keeps tx key i none = pure-Keeps tt
detach_credit-Keeps tx key i (some c) =
    let op : OutPoint = record { hash = tx.msg_tx.sha; index = i } in
    >>=-Keeps _ _ (modify-Keeps (λ s. record s { unspent = erase op s.unspent }) (λ s. refl)) λ _.
      option-Keeps c.spent_by _ _ (pure-Keeps tt)
        λ k. detach_spender-Keeps op (record { block_tx_key = key; output_index = i }) k

detach_spend-Keeps : (r : RecordRef) (prev : BlockOutputKey) → KeepsBlocks (detach_spend r prev)
unfolding detach_spend
detach_spend-Keeps r prev = >>=-Keeps _ _ (try-Keeps (lookup_block_tx prev.block_tx_key)) λ rr.
    >>=-Keeps _ _ (try-Keeps (get_record rr)) λ (t : TxRecord).
      >>=-Keeps _ _ (try-Keeps (λ s. record_credit prev t)) λ c.
        >>=-Keeps _ _
          (unconfirmed-Keeps
            (spend_mined (record { hash = t.tx.msg_tx.sha; index = prev.output_index }) prev r))
          λ _. set_spent_by-KeepsBlocks rr prev.output_index (some unmined_key)

clear_spends-Keeps : (r : RecordRef) → KeepsBlocks (clear_spends r)
unfolding clear_spends
clear_spends-Keeps r =
    >>=-Keeps _ _ (try-Keeps (get_record r))
      λ (t : TxRecord). option-Keeps t.debits _ _ (pure-Keeps tt) λ d. set_record-Keeps r _

detach_debits-Keeps : (r : RecordRef) → KeepsBlocks (detach_debits r)
unfolding detach_debits
detach_debits-Keeps r = >>=-Keeps _ _ (try-Keeps (get_record r)) λ (t : TxRecord).
    option-Keeps t.debits _ _ (pure-Keeps tt) λ d.
      >>=-Keeps _ _ (each-Keeps (detach_spend r) (elems d.spends) (detach_spend-Keeps r))
        λ _. clear_spends-Keeps r

detach_tx-Keeps : (unknown height : ℤ) (r : RecordRef) → KeepsBlocks (detach_tx unknown height r)
unfolding detach_tx
detach_tx-Keeps unknown height r = >>=-Keeps _ _ (try-Keeps (get_record r)) λ (t : TxRecord).
    if-Keeps (eqb_ℤ t.tx.index (pos 0)) (pure-Keeps tt) (
      >>=-Keeps _ _ (set_index-Keeps r unknown) λ _.
        >>=-Keeps _ _ (unconfirmed-Keeps (add_unconfirmed t.tx r)) λ _.
          >>=-Keeps _ _
            (each_indexed-Keeps
              (detach_credit t.tx (record { block_index = t.tx.index; block_height = height })) 0
              t.credits (detach_credit-Keeps t.tx _))
            λ _. detach_debits-Keeps r)

pub detach_block-Keeps : (unknown : ℤ) (c : CollectionRef) → KeepsBlocks (detach_block unknown c)
unfolding detach_block
detach_block-Keeps unknown c =
    >>=-Keeps _ _ (try-Keeps (get_collection c)) λ (b : BlockTxCollection). rounds b b.txs
  where
    rounds :
        (b : BlockTxCollection) (txs : List RecordRef)
        → KeepsBlocks (elim txs [
          | [] ↦ crash
          | r ∷ rs ↦
              modify (λ s. record s { block_indexes = erase b.block.height s.block_indexes })
              >>= λ _. each (detach_tx unknown b.block.height) b.txs
        ])
    rounds b [] = crash-Keeps
    rounds b (r ∷ rs) =
        >>=-Keeps _ _
          (modify-Keeps (λ s. record s { block_indexes = erase b.block.height s.block_indexes })
            (λ s. refl))
          λ _.
            each-Keeps (detach_tx unknown b.block.height) b.txs
              (detach_tx-Keeps unknown b.block.height)
