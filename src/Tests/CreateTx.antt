-- ===== src/Tests/CreateTx.antt =====
-- Input selection, fees and confirmations at concrete numbers.
use btcwallet.Prelude.{All, ◌≡◌, ◌↔◌, ◌⊎◌, refl, true, false, List, [], ◌∷◌, ◌++◌, arith}
use btcwallet.Prelude.Int.{ℤ, pos, ◌+ℤ◌, ◌≤ℤ◌, wrap64}
use btcwallet.TxStore.Types.{CreditHandle, RecordRef, Time, unix_time, unmined_key}
use btcwallet.TxStore.Query.{confirmed}
use btcwallet.TxStore.Query.Confirmations.{confirmed_iff}
use btcwallet.CreateTx.{
  selected, insufficient_funds, select_loop, select_inputs, Limits, minimum_fee,
}
use btcwallet.CreateTx.Select.{
  total, IsNonneg, AllNeeded, select_inputs_sound, select_inputs_covers, select_inputs_insufficient,
}
use btcwallet.CreateTx.Fees.{minimum_fee_bounds}

-- A credit is its amount here.
abbrev amount : ℤ → ℤ
amount v = v

abbrev three_credits : List ℤ
three_credits = pos 5000 ∷ pos 3000 ∷ pos 1000 ∷ []

abbrev two_credits : List ℤ
two_credits = pos 5000 ∷ pos 3000 ∷ []

three_credits-All : All (IsNonneg amount) three_credits
three_credits-All = (omega arith, (omega arith, (omega arith, tt)))

select_inputs_sound_example :
    (rest : List ℤ) × (two_credits ++ rest ≡ three_credits)
    × (pos 8000 ≡ total amount two_credits)
    × (pos 6000 +ℤ pos 1000 ≤ℤ pos 8000)
    × AllNeeded amount (pos 6000 +ℤ pos 1000) (pos 0) two_credits
unfolding total ◌+ℤ◌ select_inputs select_loop wrap64
select_inputs_sound_example =
    select_inputs_sound amount three_credits (pos 6000) (pos 1000) two_credits (pos 8000)
      three_credits-All (omega arith) (omega arith, omega arith) (omega arith) refl

select_inputs_covers_example :
    (inputs : List ℤ) × (out : ℤ) × (select_inputs amount three_credits (pos 6000) (pos 1000)
      ≡ selected inputs out)
unfolding total ◌+ℤ◌
select_inputs_covers_example =
    select_inputs_covers amount three_credits (pos 6000) (pos 1000) three_credits-All (omega arith)
      (omega arith, omega arith) (omega arith) (omega arith)

select_inputs_insufficient_example :
    select_inputs amount three_credits (pos 9000) (pos 1)
    ≡ insufficient_funds (total amount three_credits) (pos 9000) (pos 1)
unfolding total ◌+ℤ◌
select_inputs_insufficient_example =
    select_inputs_insufficient amount three_credits (pos 9000) (pos 1) three_credits-All
      (omega arith) (omega arith, omega arith) (omega arith)

abbrev limits : Limits
limits = record { satoshi_per_bitcent = 1000000; max_satoshi = 2100000000000000 }

minimum_fee_bounds_example :
    let fee = minimum_fee limits (pos 10000) 2500 (pos 700 ∷ []) false in
    (pos 0 ≤ℤ fee) × (fee ≤ℤ pos 2100000000000000)
minimum_fee_bounds_example =
    minimum_fee_bounds limits (pos 10000) 2500 (pos 700 ∷ []) false (omega arith) (omega arith)

confirmed_iff_example :
    (confirmed (pos 6) (pos 300000) (pos 300005) ≡ true)
    ↔ ((pos 6 ≤ℤ pos 0) ⊎ (pos 300000 +ℤ pos 6 ≤ℤ pos 300005 +ℤ pos 1))
confirmed_iff_example =
    confirmed_iff (pos 6) (pos 300000) (pos 300005) (omega arith, omega arith) (refl, omega arith)
      (refl, omega arith)

abbrev all_at : ℤ → RecordRef → Time
all_at s r = unix_time s

abbrev unmined_credit : CreditHandle
unmined_credit = record { tx = record { key = unmined_key; ref = 0 }; output_index = 0 }

abbrev mined_credit : CreditHandle
mined_credit = record {
  tx = record { key = record { block_index = pos 2; block_height = pos 300000 }; ref = 1 };
  output_index = 0;
}
