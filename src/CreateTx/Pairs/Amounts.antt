-- ===== src/CreateTx/Pairs/Amounts.antt =====
-- The amounts of a round of txToPairs: inputs, outputs, fee and change.
use btcwallet.Prelude.{ℕ, ◌+◌, ◌<◌, ◌≡◌, List, [], ◌∷◌, ◌++◌, All}
use btcwallet.Prelude.Int.{
  ℤ, pos, pos_part, ◌+ℤ◌, ◌-ℤ◌, ◌≤ℤ◌, ◌<ℤ◌, wrap64, wrap64_nonneg, nonneg_parts, int_laws, IsInt64,
}
use btcwallet.CreateTx.Select.{total, total_nonneg, IsNonneg}
use btcwallet.CreateTx.Pairs.{Coin, coin_amount}
use btcwallet.CreateTx.Pairs.Outputs.{total-append, parts_of_eq}

All-suffix :
    (xs ys : List Coin) → All (IsNonneg coin_amount) (xs ++ ys) → All (IsNonneg coin_amount) ys
All-suffix [] ys h = h
All-suffix (x ∷ xs) ys h = All-suffix xs ys h.1

pub total-prefix :
    (inputs rest eligible : List Coin)
    → All (IsNonneg coin_amount) eligible
    → inputs ++ rest ≡ eligible
    → total coin_amount inputs ≤ℤ total coin_amount eligible
total-prefix inputs rest eligible h prefix =
    let rest_nonneg = total_nonneg coin_amount rest (All-suffix inputs rest (rw prefix h)) in
    let sum = total-append coin_amount inputs rest in
    rw (← prefix) (omega (int_laws, parts_of_eq _ _ sum, rest_nonneg))

pub le_total :
    (amt fee out : ℤ) (inputs rest eligible : List Coin)
    → All (IsNonneg coin_amount) eligible
    → inputs ++ rest ≡ eligible
    → out ≡ total coin_amount inputs
    → amt +ℤ fee ≤ℤ out
    → amt +ℤ fee ≤ℤ total coin_amount eligible
le_total amt fee out inputs rest eligible h prefix sum cover =
    omega (int_laws, total-prefix inputs rest eligible h prefix, parts_of_eq _ _ sum)

-- Without change the inputs are just the amount and the fee.
pub exact_sum :
    (amt fee out outs : ℤ)
    → outs ≡ amt
    → amt +ℤ fee ≤ℤ out
    → out -ℤ amt -ℤ fee ≤ℤ pos 0
    → out ≡ outs +ℤ fee
exact_sum amt fee out outs sum cover none_left = omega (int_laws, parts_of_eq _ _ sum)

-- With change the outputs carry it too.
pub change_sum :
    (amt fee out outs outs' : ℤ)
    → outs ≡ amt
    → outs' ≡ outs +ℤ (out -ℤ amt -ℤ fee)
    → out ≡ outs' +ℤ fee
change_sum amt fee out outs outs' sum sum' =
    omega (int_laws, parts_of_eq _ _ sum, parts_of_eq _ _ sum')

-- The change is computed without overflow.
pub change_exact :
    (amt fee out : ℤ)
    → pos 0 <ℤ amt
    → pos 0 ≤ℤ fee
    → amt +ℤ fee ≤ℤ out
    → pos_part out < 9223372036854775808
    → wrap64 (wrap64 (out -ℤ amt) -ℤ fee) ≡ out -ℤ amt -ℤ fee
change_exact amt fee out ha hf cover fits =
    let first : wrap64 (out -ℤ amt) ≡ out -ℤ amt =
      wrap64_nonneg (out -ℤ amt) (omega int_laws)
        (omega (int_laws, nonneg_parts (out -ℤ amt) (omega int_laws))) in
    let second : wrap64 (out -ℤ amt -ℤ fee) ≡ out -ℤ amt -ℤ fee =
      wrap64_nonneg (out -ℤ amt -ℤ fee) (omega int_laws)
        (omega (int_laws, nonneg_parts (out -ℤ amt -ℤ fee) (omega int_laws))) in
    rw first second

pub sum_IsInt64 :
    (amt fee : ℤ) (max : ℕ)
    → pos 0 <ℤ amt
    → pos 0 ≤ℤ fee
    → fee ≤ℤ pos max
    → pos_part amt + max < 9223372036854775808
    → IsInt64 (amt +ℤ fee)
sum_IsInt64 amt fee max ha hf capped fits =
    let no_neg = nonneg_parts (amt +ℤ fee) (omega int_laws) in
    (omega (int_laws, no_neg), omega (int_laws, no_neg))
