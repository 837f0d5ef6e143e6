-- ===== src/CreateTx/Fees.antt =====
-- What `minimumFee` and `chainDepth` return.
use btcwallet.Prelude.{
  ℕ, ◌+◌, ◌*◌, ◌/◌, ◌<◌, ◌≤◌, ◌≡◌, Bool, true, false, List, arith, ◌⊎◌, if◌then◌else◌,
}
use btcwallet.Prelude.Int.{ℤ, pos, minus_one, ◌*ℤ◌, ◌≤ℤ◌, ◌<ℤ◌, wrap64, wrap64_nonneg}
use btcwallet.TxStore.Query.{confirms}
use btcwallet.CreateTx.{Limits, any_below, minimum_fee, chain_depth}

-- With an increment between zero and the maximum amount, the fee lies between them too, for every
-- size and all outputs, also where the product of the increment and the kilobytes wraps around.
pub minimum_fee_bounds :
    (l : Limits) (incr : ℤ) (tx_len : ℕ) (values : List ℤ) (free : Bool)
    → pos 0 ≤ℤ incr
    → incr ≤ℤ pos l.max_satoshi
    → let fee = minimum_fee l incr tx_len values free in (pos 0 ≤ℤ fee) × (fee ≤ℤ pos l.max_satoshi)
unfolding minimum_fee
minimum_fee_bounds l incr tx_len values free h k = ground arith

fee_product : (k n : ℕ) → pos k *ℤ pos n ≡ pos (k * n)
unfolding ◌*ℤ◌
fee_product k n = ground arith

kilobytes_ge : (k n : ℕ) → n ≤ (1 + k) * n
kilobytes_ge k n = grind arith

fee_exact :
    (incr tx_len : ℕ)
    → (1 + tx_len / 1000) * incr < 9223372036854775808
    → wrap64 (pos (1 + tx_len / 1000) *ℤ pos incr) ≡ pos ((1 + tx_len / 1000) * incr)
fee_exact incr tx_len h =
    rw (fee_product (1 + tx_len / 1000) incr) (wrap64_nonneg _ (omega arith) h)

-- A transaction that is not free costs the increment for each started kilobyte, where that stays
-- below the maximum amount and the maximum is an int64.
pub minimum_fee_per_kilobyte :
    (l : Limits) (incr tx_len : ℕ) (values : List ℤ)
    → l.max_satoshi < 9223372036854775808
    → (1 + tx_len / 1000) * incr ≤ l.max_satoshi
    → minimum_fee l (pos incr) tx_len values false ≡ pos ((1 + tx_len / 1000) * incr)
unfolding minimum_fee
minimum_fee_per_kilobyte l incr tx_len values m h =
    rw (fee_exact incr tx_len (omega arith)) (ground (arith, kilobytes_ge (tx_len / 1000) incr))

-- A transaction below a kilobyte that may be free is free, unless an output is below a bitcent:
-- then it costs the increment.
pub minimum_fee_free :
    (l : Limits) (incr : ℤ) (tx_len : ℕ) (values : List ℤ)
    → pos 0 <ℤ incr
    → tx_len < 1000
    → minimum_fee l incr tx_len values true
      ≡ (if any_below (pos l.satoshi_per_bitcent) values then incr else pos 0)
unfolding minimum_fee
minimum_fee_free l incr tx_len values h k = ground arith

-- For a transaction that is mined at or below the current height, or not mined, the chain depth
-- that a free transaction's priority counts is its number of confirmations in the store.
pub chain_depth-eq-confirms :
    (target current : ℤ)
    → (target ≡ minus_one) ⊎ (target ≤ℤ current)
    → chain_depth target current ≡ confirms target current
unfolding chain_depth confirms
chain_depth-eq-confirms target current h = ground arith
