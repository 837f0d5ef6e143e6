-- ===== src/CreateTx/Pairs/Start.antt =====
-- What txToPairs begins its search for the fee with.
use btcwallet.Prelude.{
  ℕ, ◌+◌, ◌<◌, ◌≡◌, sym, ap, ◌∙◌, Bool, true, inl, inr, some, List, [], ◌∷◌, arith, All, Bool-cases,
}
use btcwallet.Prelude.Int.{ℤ, pos, pos_part, ◌≤ℤ◌, ◌<ℤ◌, int_laws, nonneg_parts}
use btcwallet.TxStore.Types.{OutPoint, TxOut}
use btcwallet.CreateTx.Select.{total, total_nonneg, IsNonneg}
use btcwallet.CreateTx.Pairs.{
  made, Coin, coin_amount, Calls, Settings, filter_eligible, is_eligible, eligible_coins,
  start_pairs, sum_amounts, make_outputs,
}
use btcwallet.CreateTx.Pairs.Outputs.{
  pair_value, Made-cases, total-make_outputs, sum_amounts_positive,
}
use btcwallet.CreateTx.Pairs.Rounds.{IsSane, Fits}

-- What package sort does: it loses and adds nothing.
pub record IsSorting (sort : List Coin → List Coin) : Type 1 where
  pub same_total : (cs : List Coin) → total coin_amount (sort cs) ≡ total coin_amount cs
  pub same_coins : (P : Coin → Type 0) (cs : List Coin) → All P cs → All P (sort cs)

module _ (calls : Calls) (settings : Settings) (sane : IsSane settings) (height : ℤ) where
  pub Fits-again :
      (amt fee f : ℤ) (outs : List TxOut) (eligible : List Coin)
      → Fits calls settings sane height amt fee outs eligible
      → fee <ℤ f
      → f ≤ℤ pos settings.limits.max_satoshi
      → Fits calls settings sane height amt f outs eligible
  Fits-again amt fee f outs eligible fits lt capped = record {
    sum_of_outs = fits.sum_of_outs;
    coins_nonneg = fits.coins_nonneg;
    coins_fit = fits.coins_fit;
    amt_positive = fits.amt_positive;
    fee_nonneg = omega (arith, fits.fee_nonneg);
    fee_capped = capped;
    amt_fits = fits.amt_fits;
  }

-- What the filter lets through.
pub filter_eligible-All :
    (ok : Coin → Bool) (cs : List Coin) → All (λ c. ok c ≡ true) (filter_eligible ok cs)
unfolding filter_eligible
filter_eligible-All ok [] = tt
filter_eligible-All ok (c ∷ cs) = elim (Bool-cases (ok c)) [
  | inl fit ↦ rw fit (fit, filter_eligible-All ok cs)
  | inr unfit ↦ rw unfit (filter_eligible-All ok cs)
]

filter_eligible-keeps :
    (P : Coin → Type 0) (ok : Coin → Bool) (cs : List Coin)
    → All P cs
    → All P (filter_eligible ok cs)
unfolding filter_eligible
filter_eligible-keeps P ok [] h = tt
filter_eligible-keeps P ok (c ∷ cs) h = elim (Bool-cases (ok c)) [
  | inl fit ↦ rw fit (h.0, filter_eligible-keeps P ok cs h.1)
  | inr unfit ↦ rw unfit (filter_eligible-keeps P ok cs h.1)
]

pub filter_eligible-total :
    (ok : Coin → Bool) (cs : List Coin)
    → All (IsNonneg coin_amount) cs
    → total coin_amount (filter_eligible ok cs) ≤ℤ total coin_amount cs
unfolding filter_eligible total
filter_eligible-total ok [] h = omega arith
filter_eligible-total ok (c ∷ cs) h = elim (Bool-cases (ok c)) [
  | inl fit ↦ rw fit (omega (int_laws, filter_eligible-total ok cs h.1))
  | inr unfit ↦ rw unfit (omega (int_laws, filter_eligible-total ok cs h.1, h.0))
]

pub made-inj : {A : Type 0} (a b : A) → made a ≡ made b → a ≡ b
made-inj a b h = cc

module _ (calls : Calls) (settings : Settings) where
  -- What the first steps give where they succeed.
  pub start_pairs_lem :
      (pairs : List (List ℕ × ℤ)) (height : ℤ) (coins : List Coin) (keys : calls.Keys) (amt : ℤ)
      (outs : List TxOut) (h : ℤ) (cs : List Coin)
      → start_pairs calls settings pairs (some height) (some coins) keys ≡ made (amt, outs, h, cs)
      → (sum_amounts (pos 0) pairs ≡ made amt)
        × (make_outputs calls settings pairs ≡ made outs)
        × (h ≡ height)
        × (cs ≡ coins)
  unfolding start_pairs
  start_pairs_lem pairs height coins keys amt outs h cs eq =
      elim (Bool-cases (calls.is_locked keys)) [
        | inl closed ↦ absurd (let clash = rw (closed, start_pairs) at eq in cc)
        | inr open_keys ↦ elim (Made-cases (sum_amounts (pos 0) pairs)) [
          | inl (e, bad) ↦ absurd (let clash = rw (open_keys, bad, start_pairs) at eq in cc)
          | inr (a, summed) ↦ elim (Made-cases (make_outputs calls settings pairs)) [
            | inl (e, bad) ↦
                absurd (let clash = rw (open_keys, summed, bad, start_pairs) at eq in cc)
            | inr (os, built) ↦
                let same : made (a, os, height, coins) ≡ made (amt, outs, h, cs) =
                  rw (open_keys, summed, built, start_pairs) at eq in
                let parts = made-inj _ _ same in
                (
                  summed ∙ ap (λ t. made t.0) parts,
                  built ∙ ap (λ t. made t.1) parts,
                  sym (ap (λ t. t.2) parts),
                  sym (ap (λ t. t.3) parts),
                )
          ]
        ]
      ]

module _ (calls : Calls) (settings : Settings) (sane : IsSane settings)
    (sorting : IsSorting calls.sort_reverse) (minconf : ℤ) (locked_outpoint : OutPoint → Bool)
    (height : ℤ) where
  abbrev pub eligible : List Coin → List Coin
  eligible coins = eligible_coins calls settings minconf locked_outpoint height coins

  -- What the loop starts from.
  pub Fits-start :
      (p : List ℕ × ℤ) (pairs : List (List ℕ × ℤ)) (amt : ℤ) (outs : List TxOut) (coins : List Coin)
      → All (IsNonneg coin_amount) coins
      → pos_part (total coin_amount coins) < 9223372036854775808
      → pos_part (total pair_value (p ∷ pairs)) + settings.limits.max_satoshi < 9223372036854775808
      → sum_amounts (pos 0) (p ∷ pairs) ≡ made amt
      → make_outputs calls settings (p ∷ pairs) ≡ made outs
      → Fits calls settings sane height amt (pos 0) outs (eligible coins)
  unfolding eligible_coins
  Fits-start p pairs amt outs coins nonneg coins_fit fits summed built =
      let (same, positive) = sum_amounts_positive p pairs amt (omega arith) summed in
      let ok =
        is_eligible calls.is_pub_key_hash_script locked_outpoint settings.maturity minconf height in
      let kept = filter_eligible-keeps (IsNonneg coin_amount) ok coins nonneg in
      record {
        sum_of_outs = total-make_outputs calls settings (p ∷ pairs) outs built ∙ sym same;
        coins_nonneg = sorting.same_coins (IsNonneg coin_amount) (filter_eligible ok coins) kept;
        coins_fit = rw (sorting.same_total (filter_eligible ok coins)) (
            omega (
              arith,
              filter_eligible-total ok coins nonneg,
              nonneg_parts (total coin_amount coins) (total_nonneg coin_amount coins nonneg),
              nonneg_parts (total coin_amount (filter_eligible ok coins))
                  (total_nonneg coin_amount (filter_eligible ok coins) kept),
            ));
        amt_positive = positive;
        fee_nonneg = omega arith;
        fee_capped = omega arith;
        amt_fits = rw same fits;
      }
