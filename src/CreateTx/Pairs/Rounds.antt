-- ===== src/CreateTx/Pairs/Rounds.antt =====
-- What a round of the search for the fee gives (the loop of txToPairs).
use btcwallet.Prelude.{
  ◌+◌, ◌<◌, ◌≡◌, ◌⊎◌, refl, sym, ◌∙◌, inl, inr, Option, List, ◌++◌, arith, map, All, Bool-cases,
  Option-cases,
}
use btcwallet.Prelude.Int.{
  ℤ, pos, pos_part, ◌+ℤ◌, ◌-ℤ◌, ◌≤ℤ◌, ◌<ℤ◌, ltb_ℤ, nonneg_parts, int_laws, IsInt64,
}
use btcwallet.TxStore.Types.{OutPoint, TxOut}
use btcwallet.CreateTx.{select_inputs, Selection, selected, insufficient_funds}
use btcwallet.CreateTx.Select.{total, total_nonneg, IsNonneg, select_inputs_sound}
use btcwallet.CreateTx.Fees.{minimum_fee_bounds}
use btcwallet.CreateTx.Pairs.{
  made, TxError, NewTx, Coin, coin_amount, Calls, Settings, Round, stopped, again, finished,
  needed_fee, finish_round, spend_inputs, try_fee, add_change, get_change_address, sign_each,
  unsigned,
}
use btcwallet.CreateTx.Pairs.Outputs.{output_value, total-add_change, parts_of_eq, Made-cases}
use btcwallet.CreateTx.Pairs.Signing.{
  previous_outs, sign_each_lem, KeepsShape, previous_outs-unsigned,
}
use btcwallet.CreateTx.Pairs.Amounts.{
  total-prefix, le_total, exact_sum, change_sum, change_exact, sum_IsInt64,
}

abbrev coin_outs : List Coin → List OutPoint
coin_outs cs = map (λ c. c.out_point) cs

pub Selection-cases :
    (s : Selection Coin)
    → ((i : ℤ) × (o : ℤ) × (f : ℤ) × (s ≡ insufficient_funds i o f))
      ⊎ ((inputs : List Coin) × (out : ℤ) × (s ≡ selected inputs out))
Selection-cases (selected inputs out) = inr (inputs, out, refl)
Selection-cases (insufficient_funds i o f) = inl (i, o, f, refl)

pub Round-cases :
    (r : Round)
    → ((e : TxError) × (r ≡ stopped e))
      ⊎ (((f : ℤ) × (r ≡ again f)) ⊎ ((tx : NewTx) × (ins : List Coin) × (r ≡ finished tx ins)))
Round-cases (stopped e) = inl (e, refl)
Round-cases (again f) = inr (inl (f, refl))
Round-cases (finished tx ins) = inr (inr (tx, ins, refl))

-- The settings of a wallet: an increment between zero and the maximum amount.
pub record IsSane (settings : Settings) : Type 0 where
  pub nonneg : pos 0 ≤ℤ settings.fee_increment
  pub capped : settings.fee_increment ≤ℤ pos settings.limits.max_satoshi

module _ (calls : Calls) (settings : Settings) (sane : IsSane settings) (height : ℤ) where
  -- A transaction spends just its inputs: they pay for the outputs and a fee that is enough.
  pub record IsPaidBy (tx : NewTx) (inputs : List Coin) (fee : ℤ) : Type 0 where
    pub balanced : total coin_amount inputs ≡ total output_value tx.tx_out +ℤ fee
    pub spends : previous_outs tx.tx_in ≡ coin_outs inputs
    pub enough : needed_fee calls settings height tx inputs ≤ℤ fee

  needed_fee_bounds :
      (tx : NewTx) (inputs : List Coin)
      → needed_fee calls settings height tx inputs ≤ℤ pos settings.limits.max_satoshi
  unfolding needed_fee
  needed_fee_bounds tx inputs =
      (minimum_fee_bounds settings.limits settings.fee_increment _ _ _ sane.nonneg sane.capped).1

  -- What the end of a round gives.
  abbrev Ends : List TxOut → List Coin → ℤ → Round → Type 0
  Ends outs inputs fee (stopped e) = Unit
  Ends outs inputs fee (again f) = (fee <ℤ f) × (f ≤ℤ pos settings.limits.max_satoshi)
  Ends outs inputs fee (finished tx ins) =
      (ins ≡ inputs)
      × (tx.tx_out ≡ outs)
      × (previous_outs tx.tx_in ≡ coin_outs inputs)
      × (needed_fee calls settings height tx inputs ≤ℤ fee)

  finish_round_lem :
      (fee : ℤ) (outs : List TxOut) (inputs : List Coin) (keys : calls.Keys)
      → Ends outs inputs fee (finish_round calls settings height fee outs inputs keys)
  unfolding finish_round
  finish_round_lem fee outs inputs keys =
      let tx : NewTx = record { tx_in = unsigned inputs; tx_out = outs } in
      elim (Made-cases (sign_each calls settings keys tx 0 inputs)) [
        | inl (e, bad) ↦ rw (bad, finish_round) tt
        | inr (signed, good) ↦
            let shape : KeepsShape tx (made signed) =
              rw good at (sign_each_lem calls settings keys tx 0 inputs) in
            let fee' = needed_fee calls settings height signed inputs in
            elim (Bool-cases (ltb_ℤ fee fee')) [
              | inl more ↦
                  rw (good, more, finish_round) (ground arith, needed_fee_bounds signed inputs)
              | inr enough ↦
                  rw (good, enough, finish_round)
                    (refl, shape.0, shape.1 ∙ previous_outs-unsigned inputs, ground arith)
            ]
      ]

  -- What a round gives: a higher fee is tried only while the inputs cover the fee, and a finished
  -- transaction is paid by a prefix of the eligible coins.
  abbrev pub RoundOk : ℤ → List Coin → ℤ → Round → Type 0
  RoundOk amt eligible fee (stopped e) = Unit
  RoundOk amt eligible fee (again f) =
      (fee <ℤ f)
      × (f ≤ℤ pos settings.limits.max_satoshi)
      × (amt +ℤ fee ≤ℤ total coin_amount eligible)
  RoundOk amt eligible fee (finished tx ins) =
      (rest : List Coin) × (ins ++ rest ≡ eligible) × IsPaidBy tx ins fee

  -- The amounts that a round works with: the outputs have the sum `amt`, and nothing overflows.
  pub record Fits (amt fee : ℤ) (outs : List TxOut) (eligible : List Coin) : Type 0 where
    pub sum_of_outs : total output_value outs ≡ amt
    pub coins_nonneg : All (IsNonneg coin_amount) eligible
    pub coins_fit : pos_part (total coin_amount eligible) < 9223372036854775808
    pub amt_positive : pos 0 <ℤ amt
    pub fee_nonneg : pos 0 ≤ℤ fee
    pub fee_capped : fee ≤ℤ pos settings.limits.max_satoshi
    pub amt_fits : pos_part amt + settings.limits.max_satoshi < 9223372036854775808

  -- The end of a round with outputs that the inputs pay for.
  paid_end :
      (amt fee : ℤ) (outs outs' : List TxOut) (eligible inputs rest : List Coin) (r : Round)
      → inputs ++ rest ≡ eligible
      → amt +ℤ fee ≤ℤ total coin_amount eligible
      → total coin_amount inputs ≡ total output_value outs' +ℤ fee
      → Ends outs' inputs fee r
      → RoundOk amt eligible fee r
  paid_end amt fee outs outs' eligible inputs rest (stopped e) prefix cover paid ends = tt
  paid_end amt fee outs outs' eligible inputs rest (again f) prefix cover paid ends =
      (ends.0, ends.1, cover)
  paid_end amt fee outs outs' eligible inputs rest (finished tx ins) prefix cover paid
        (same, same_outs, spends, enough) =
      (
        rest,
        rw same prefix,
        record {
          balanced = rw (same, same_outs) paid;
          spends = rw same spends;
          enough = rw same enough;
        },
      )

  -- The round from the inputs on, with their total.
  spend_inputs_lem :
      (amt fee out : ℤ) (outs : List TxOut) (eligible inputs rest : List Coin)
      (change_addr : Option calls.Address) (keys : calls.Keys)
      → Fits amt fee outs eligible
      → inputs ++ rest ≡ eligible
      → out ≡ total coin_amount inputs
      → amt +ℤ fee ≤ℤ out
      → RoundOk amt eligible fee
          (spend_inputs calls settings height fee
            (out -ℤ amt -ℤ fee)
            outs
            inputs
            change_addr
            keys).0
  unfolding spend_inputs
  spend_inputs_lem amt fee out outs eligible inputs rest change_addr keys fits prefix sum cover =
      let change = out -ℤ amt -ℤ fee in
      let all_cover : amt +ℤ fee ≤ℤ total coin_amount eligible =
        le_total amt fee out inputs rest eligible fits.coins_nonneg prefix sum cover in
      elim (Bool-cases (ltb_ℤ (pos 0) change)) [
        | inr no_change ↦
            rw (no_change, spend_inputs)
              (paid_end amt fee outs outs eligible inputs rest
                (finish_round calls settings height fee outs inputs keys) prefix all_cover
                (sym sum
                  ∙ exact_sum amt fee out (total output_value outs) fits.sum_of_outs cover
                      (ground arith))
                (finish_round_lem fee outs inputs keys))
        | inl some_change ↦
            let keys' = (get_change_address calls settings change_addr keys).1 in
            elim (Option-cases (get_change_address calls settings change_addr keys).0) [
              | inl bad ↦ rw (some_change, bad, spend_inputs) tt
              | inr (a, got) ↦ elim (Option-cases (calls.pay_to_addr_script a)) [
                | inl bad ↦ rw (some_change, got, bad, spend_inputs) tt
                | inr (script, paid) ↦
                    let outs' = add_change calls settings change script outs in
                    rw (some_change, got, paid, spend_inputs)
                      (paid_end amt fee outs outs' eligible inputs rest
                        (finish_round calls settings height fee outs' inputs keys') prefix all_cover
                        (sym sum
                          ∙ change_sum amt fee out (total output_value outs)
                              (total output_value outs') fits.sum_of_outs
                              (total-add_change calls settings change script outs))
                        (finish_round_lem fee outs' inputs keys'))
              ]
            ]
      ]

  -- A round keeps what `RoundOk` says.
  pub try_fee_lem :
      (amt fee : ℤ) (outs : List TxOut) (eligible : List Coin) (change_addr : Option calls.Address)
      (keys : calls.Keys)
      → Fits amt fee outs eligible
      → RoundOk amt eligible fee
          (try_fee calls settings height amt outs eligible fee change_addr keys).0
  unfolding try_fee
  try_fee_lem amt fee outs eligible change_addr keys fits =
      elim (Selection-cases (select_inputs coin_amount eligible amt fee)) [
        | inl (i, o, f, bad) ↦ rw (bad, try_fee) tt
        | inr (inputs, out, good) ↦
            let sum_fits : IsInt64 (amt +ℤ fee) =
              sum_IsInt64 amt fee settings.limits.max_satoshi fits.amt_positive fits.fee_nonneg
                fits.fee_capped fits.amt_fits in
            let (rest, prefix, sum, cover, _) =
              select_inputs_sound coin_amount eligible amt fee inputs out fits.coins_nonneg
                fits.coins_fit sum_fits (omega int_laws) good in
            let out_fits : pos_part out < 9223372036854775808 = omega (
              int_laws,
              total-prefix inputs rest eligible fits.coins_nonneg prefix,
              parts_of_eq _ _ sum,
              fits.coins_fit,
              nonneg_parts out (omega int_laws),
              nonneg_parts (total coin_amount eligible)
                  (total_nonneg coin_amount eligible fits.coins_nonneg),
            ) in
            rw
              (
                good,
                change_exact amt fee out fits.amt_positive fits.fee_nonneg cover out_fits,
                try_fee,
              )
              (spend_inputs_lem amt fee out outs eligible inputs rest change_addr keys fits prefix
                sum cover)
      ]
