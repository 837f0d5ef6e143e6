-- ===== src/CreateTx/Pairs/Balance.antt =====
-- The transaction that txToPairs makes pays for its outputs and its fee, and spends only what may
-- be spent.
use btcwallet.Prelude.{
  ℕ, zero, suc, ◌+◌, ◌<◌, ◌≡◌, Bool, true, false, inl, inr, Option, none, some, List, [], ◌∷◌, ◌++◌,
  arith, All,
}
use btcwallet.Prelude.Int.{ℤ, pos, pos_part}
use btcwallet.TxStore.Types.{OutPoint, TxOut}
use btcwallet.TxStore.Query.{confirmed}
use btcwallet.CreateTx.Select.{total, IsNonneg}
use btcwallet.CreateTx.Pairs.{
  Made, made, refused, Coin, coin_amount, Calls, Settings, CreatedTx, try_fee, fee_loop,
  is_eligible, eligible_coins, validate, validated, start_pairs, tx_to_pairs,
}
use btcwallet.CreateTx.Pairs.Outputs.{pair_value, Made-cases}
use btcwallet.CreateTx.Pairs.Start.{
  IsSorting, Fits-again, Fits-start, filter_eligible-All, start_pairs_lem, made-inj, eligible,
}
use btcwallet.CreateTx.Pairs.Rounds.{IsSane, IsPaidBy, Fits, try_fee_lem, Round-cases}

module _ (calls : Calls) (settings : Settings) (sane : IsSane settings) (height : ℤ) where
  -- The transaction is paid by a prefix of the own coins.
  abbrev IsPaid : List Coin → CreatedTx calls.Address → Type 0
  IsPaid eligible c =
      (fee : ℤ) × (rest : List Coin) × (c.inputs ++ rest ≡ eligible)
      × IsPaidBy calls settings sane height c.tx c.inputs fee

  abbrev LoopOk : List Coin → Option (Made (CreatedTx calls.Address) × calls.Keys) → Type 0
  LoopOk eligible none = Unit
  LoopOk eligible (some (refused e, keys)) = Unit
  LoopOk eligible (some (made c, keys)) = IsPaid eligible c

  fee_loop_lem :
      (fuel : ℕ) (amt fee : ℤ) (outs : List TxOut) (eligible : List Coin)
      (change_addr : Option calls.Address) (keys : calls.Keys)
      → Fits calls settings sane height amt fee outs eligible
      → LoopOk eligible (fee_loop calls settings fuel height amt outs eligible fee change_addr keys)
  unfolding fee_loop
  fee_loop_lem zero amt fee outs eligible change_addr keys fits = tt
  fee_loop_lem (suc fuel) amt fee outs eligible change_addr keys fits =
      let r = try_fee calls settings height amt outs eligible fee change_addr keys in
      let round =
        try_fee_lem calls settings sane height amt fee outs eligible change_addr keys fits in
      elim (Round-cases r.0) [
        | inl (e, stop) ↦ rw (stop, fee_loop) tt
        | inr (inl (f, more)) ↦
            let (lt, capped, cover) = rw more at round in
            rw (more, fee_loop)
              (fee_loop_lem fuel amt f outs eligible r.1 r.2
                (Fits-again calls settings sane height amt fee f outs eligible fits lt capped))
        | inr (inr (tx, ins, fin)) ↦
            let (rest, prefix, paid) = rw fin at round in
            rw (fin, fee_loop) (fee, rest, prefix, paid)
      ]

All-prefix : (P : Coin → Type 0) (xs ys : List Coin) → All P (xs ++ ys) → All P xs
All-prefix P [] ys h = tt
All-prefix P (x ∷ xs) ys h = (h.0, All-prefix P xs ys h.1)

module _ (calls : Calls) (settings : Settings) where
  pub validated-made :
      (m : Made (CreatedTx calls.Address)) (c : CreatedTx calls.Address)
      → validated calls settings m ≡ made c
      → m ≡ made c
  validated-made (refused e) c h = absurd (cc)
  validated-made (made d) c h =
      elim (Made-cases (validate calls settings d.tx 0 d.tx.tx_in d.inputs)) [
        | inl (e, bad) ↦ absurd (let clash = rw bad at h in cc)
        | inr (u, good) ↦ rw good at h
      ]

module _ (calls : Calls) (settings : Settings) (sane : IsSane settings)
    (sorting : IsSorting calls.sort_reverse) (minconf : ℤ) (locked_outpoint : OutPoint → Bool)
    (height : ℤ) where
  -- An output that may be spent: of a public key's hash, confirmed, mature if it is of a coinbase,
  -- and not locked.
  pub record MaySpend (c : Coin) : Type 0 where
    pub pays_key_hash : calls.is_pub_key_hash_script c.pk_script ≡ true
    pub is_confirmed : confirmed minconf c.height height ≡ true
    pub is_mature : c.coinbase ≡ true → confirmed settings.maturity c.height height ≡ true
    pub not_locked : locked_outpoint c.out_point ≡ false

  MaySpend-of_eligible :
      (c : Coin)
      → is_eligible calls.is_pub_key_hash_script locked_outpoint settings.maturity minconf height c
        ≡ true
      → MaySpend c
  unfolding is_eligible
  MaySpend-of_eligible c h = record {
    pays_key_hash = ground arith;
    is_confirmed = ground arith;
    is_mature = λ cb. ground arith;
    not_locked = ground arith;
  }

  MaySpend-of_All :
      (cs : List Coin)
      → All
          (λ c.
            is_eligible calls.is_pub_key_hash_script locked_outpoint settings.maturity minconf
              height c
            ≡ true)
          cs
      → All MaySpend cs
  MaySpend-of_All [] h = tt
  MaySpend-of_All (c ∷ cs) h = (MaySpend-of_eligible c h.0, MaySpend-of_All cs h.1)

  eligible-MaySpend :
      (coins : List Coin)
      → All MaySpend (eligible calls settings sane sorting minconf locked_outpoint height coins)
  unfolding eligible_coins
  eligible-MaySpend coins =
      sorting.same_coins MaySpend _ (MaySpend-of_All _ (filter_eligible-All _ coins))

  loop_paid :
      (fuel : ℕ) (amt : ℤ) (outs : List TxOut) (coins : List Coin)
      (o : Option (Made (CreatedTx calls.Address) × calls.Keys)) (keys' : calls.Keys)
      (c : CreatedTx calls.Address)
      → LoopOk calls settings sane height
          (eligible calls settings sane sorting minconf locked_outpoint height coins)
          o
      → elim o as (λ x. Option (Made (CreatedTx calls.Address) × calls.Keys)) [
        | none ↦ none
        | some r ↦ some (validated calls settings r.0, r.1)
      ]
        ≡ some (made c, keys')
      → (fee : ℤ) × IsPaidBy calls settings sane height c.tx c.inputs fee × All MaySpend c.inputs
  loop_paid fuel amt outs coins none keys' c ok eq = absurd (cc)
  loop_paid fuel amt outs coins (some (refused e, k)) keys' c ok eq = absurd (cc)
  loop_paid fuel amt outs coins (some (made d, k)) keys' c (fee, rest, prefix, paid) eq =
      let valid : validated calls settings (made d) ≡ made c = cc in
      let same : d ≡ c = made-inj d c (validated-made calls settings (made d) c valid) in
      rw (← same)
        (fee, paid, All-prefix MaySpend d.inputs rest (rw prefix (eligible-MaySpend coins)))

  -- The transaction that `txToPairs` makes has inputs that are worth its outputs and a fee, which
  -- is at least the minimum fee of the transaction, and spends just these; each of them pays to the
  -- hash of a public key, is confirmed, is mature if it is of a coinbase, and is not locked. The
  -- amounts of the coins are not negative, and they and the amounts of the pairs with the maximum
  -- fee are int64s. The fee increment lies between zero and the maximum amount (`IsSane`), which
  -- SetTxFee does not check, there is at least one pair, and package sort loses nothing.
  pub tx_to_pairs_paid :
      (fuel : ℕ) (p : List ℕ × ℤ) (pairs : List (List ℕ × ℤ)) (coins : List Coin)
      (keys keys' : calls.Keys) (c : CreatedTx calls.Address)
      → All (IsNonneg coin_amount) coins
      → pos_part (total coin_amount coins) < 9223372036854775808
      → pos_part (total pair_value (p ∷ pairs)) + settings.limits.max_satoshi < 9223372036854775808
      → tx_to_pairs calls settings fuel
          (p ∷ pairs)
          minconf
          locked_outpoint
          (some height)
          (some coins)
          keys
        ≡ some (made c, keys')
      → (fee : ℤ) × IsPaidBy calls settings sane height c.tx c.inputs fee × All MaySpend c.inputs
  unfolding tx_to_pairs
  tx_to_pairs_paid fuel p pairs coins keys keys' c nonneg coins_fit fits eq =
      elim (Made-cases (start_pairs calls settings (p ∷ pairs) (some height) (some coins) keys)) [
        | inl (e, bad) ↦ absurd (let clash = rw (bad, tx_to_pairs) at eq in cc)
        | inr ((amt, outs, h, cs), begun) ↦
            let (summed, built, same_height, same_coins) =
              start_pairs_lem calls settings (p ∷ pairs) height coins keys amt outs h cs begun in
            let start =
              Fits-start calls settings sane sorting minconf locked_outpoint height p pairs amt outs
                coins nonneg coins_fit fits summed built in
            loop_paid fuel amt outs coins _ keys' c
              (fee_loop_lem calls settings sane height fuel amt (pos 0) outs
                (eligible calls settings sane sorting minconf locked_outpoint height coins) none
                keys start)
              (rw (begun, tx_to_pairs, same_height, same_coins) at eq)
      ]
