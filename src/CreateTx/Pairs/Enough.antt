-- ===== src/CreateTx/Pairs/Enough.antt =====
-- The search for the fee ends (the loop of txToPairs): each round tries a higher fee, and none is
-- tried that the coins do not cover.
use btcwallet.Prelude.{
  ℕ, zero, suc, ◌+◌, ◌≤◌, ◌<◌, ◌≡◌, refl, inl, inr, Bool, Option, none, some, List, ◌∷◌, arith, All,
}
use btcwallet.Prelude.Int.{ℤ, pos, pos_part, ◌+ℤ◌, ◌≤ℤ◌, ◌<ℤ◌, int_laws, nonneg_parts}
use btcwallet.TxStore.Types.{OutPoint, TxOut}
use btcwallet.CreateTx.Select.{total, total_nonneg, IsNonneg}
use btcwallet.CreateTx.Pairs.{
  Made, made, refused, Coin, coin_amount, Calls, Settings, CreatedTx, try_fee, fee_loop,
  filter_eligible, is_eligible, eligible_coins, validated, start_pairs, tx_to_pairs,
}
use btcwallet.CreateTx.Pairs.Outputs.{pair_value, Made-cases}
use btcwallet.CreateTx.Pairs.Rounds.{IsSane, Fits, try_fee_lem, Round-cases}
use btcwallet.CreateTx.Pairs.Start.{
  IsSorting, Fits-again, Fits-start, start_pairs_lem, filter_eligible-total,
}

module _ (calls : Calls) (settings : Settings) (sane : IsSane settings) (height : ℤ) where
  enough_again :
      (amt fee f : ℤ) (fuel : ℕ) (outs : List TxOut) (eligible : List Coin)
      → Fits calls settings sane height amt fee outs eligible
      → fee <ℤ f
      → amt +ℤ fee ≤ℤ total coin_amount eligible
      → pos_part (total coin_amount eligible) + 2 ≤ suc fuel + pos_part fee
      → (0 < fuel) × (pos_part (total coin_amount eligible) + 2 ≤ fuel + pos_part f)
  enough_again amt fee f fuel outs eligible fits lt cover enough =
      let t =
        nonneg_parts (total coin_amount eligible)
          (total_nonneg coin_amount eligible fits.coins_nonneg) in
      let old = nonneg_parts fee fits.fee_nonneg in
      let new = nonneg_parts f (omega (arith, fits.fee_nonneg)) in
      (
        omega (int_laws, t, old, new, fits.amt_positive),
        omega (int_laws, t, old, new, fits.amt_positive),
      )

  fee_loop_ends :
      (fuel : ℕ) (amt fee : ℤ) (outs : List TxOut) (eligible : List Coin)
      (change_addr : Option calls.Address) (keys : calls.Keys)
      → Fits calls settings sane height amt fee outs eligible
      → 0 < fuel
      → pos_part (total coin_amount eligible) + 2 ≤ fuel + pos_part fee
      → (r : Made (CreatedTx calls.Address) × calls.Keys) × (fee_loop calls settings fuel height amt
            outs eligible fee change_addr keys
          ≡ some r)
  unfolding fee_loop
  fee_loop_ends zero amt fee outs eligible change_addr keys fits some_fuel enough =
      absurd (omega arith)
  fee_loop_ends (suc fuel) amt fee outs eligible change_addr keys fits some_fuel enough =
      let r = try_fee calls settings height amt outs eligible fee change_addr keys in
      let round =
        try_fee_lem calls settings sane height amt fee outs eligible change_addr keys fits in
      elim (Round-cases r.0) [
        | inl (e, stop) ↦ ((refused e, r.2), rw (stop, fee_loop) refl)
        | inr (inl (f, more)) ↦
            let (lt, capped, cover) = rw more at round in
            let (left, still) = enough_again amt fee f fuel outs eligible fits lt cover enough in
            let (result, eq) =
              fee_loop_ends fuel amt f outs eligible r.1 r.2
                (Fits-again calls settings sane height amt fee f outs eligible fits lt capped) left
                still in
            (result, rw (more, fee_loop) eq)
        | inr (inr (tx, ins, fin)) ↦ (
          (made (record { tx = tx; inputs = ins; change_addr = r.1 }), r.2),
          rw (fin, fee_loop) refl,
        )
      ]

module _ (calls : Calls) (settings : Settings) (sane : IsSane settings)
    (sorting : IsSorting calls.sort_reverse) (minconf : ℤ) (locked_outpoint : OutPoint → Bool)
    (height : ℤ) where
  eligible_total :
      (coins : List Coin)
      → All (IsNonneg coin_amount) coins
      → total coin_amount (eligible_coins calls settings minconf locked_outpoint height coins)
        ≤ℤ total coin_amount coins
  unfolding eligible_coins
  eligible_total coins nonneg =
      let ok =
        is_eligible calls.is_pub_key_hash_script locked_outpoint settings.maturity minconf height in
      rw (sorting.same_total (filter_eligible ok coins)) (filter_eligible-total ok coins nonneg)

  -- `txToPairs` ends: as many rounds as the coins are worth, and two, are enough, for amounts of the
  -- coins that are not negative and are an int64 in all, and amounts of the pairs that are one with
  -- the maximum fee. The fee increment lies between zero and the maximum amount (`IsSane`), which
  -- SetTxFee does not check, there is at least one pair, and package sort loses nothing.
  pub tx_to_pairs_ends :
      (fuel : ℕ) (p : List ℕ × ℤ) (pairs : List (List ℕ × ℤ)) (coins : List Coin)
      (keys : calls.Keys)
      → All (IsNonneg coin_amount) coins
      → pos_part (total coin_amount coins) < 9223372036854775808
      → pos_part (total pair_value (p ∷ pairs)) + settings.limits.max_satoshi < 9223372036854775808
      → pos_part (total coin_amount coins) + 2 ≤ fuel
      → (r : Made (CreatedTx calls.Address) × calls.Keys) × (tx_to_pairs calls settings fuel
            (p ∷ pairs)
            minconf
            locked_outpoint
            (some height)
            (some coins)
            keys
          ≡ some r)
  unfolding tx_to_pairs
  tx_to_pairs_ends fuel p pairs coins keys nonneg coins_fit fits enough =
      elim (Made-cases (start_pairs calls settings (p ∷ pairs) (some height) (some coins) keys)) [
        | inl (e, bad) ↦ ((refused e, keys), rw (bad, tx_to_pairs) refl)
        | inr ((amt, outs, h, cs), begun) ↦
            let (summed, built, same_height, same_coins) =
              start_pairs_lem calls settings (p ∷ pairs) height coins keys amt outs h cs begun in
            let start =
              Fits-start calls settings sane sorting minconf locked_outpoint height p pairs amt outs
                coins nonneg coins_fit fits summed built in
            let less = eligible_total coins nonneg in
            let eligible = eligible_coins calls settings minconf locked_outpoint height coins in
            let (r, eq) =
              fee_loop_ends calls settings sane height fuel amt (pos 0) outs eligible none keys
                start (omega arith)
                (omega (
                  arith,
                  nonneg_parts (total coin_amount coins) (total_nonneg coin_amount coins nonneg),
                  nonneg_parts (total coin_amount eligible)
                      (total_nonneg coin_amount eligible start.coins_nonneg),
                )) in
            (
              (validated calls settings r.0, r.1),
              rw (begun, tx_to_pairs, same_height, same_coins, eq) refl,
            )
      ]
