-- ===== src/CreateTx/Pairs/Inputs.antt =====
-- Which outpoints the transaction of txToPairs spends, whatever the amounts are.
use mathlib.Core.Path.{subst}
use btcwallet.Prelude.{
  ℕ, zero, suc, ◌≡◌, sym, refl, ap, ◌∙◌, Bool, inl, inr, Option, none, some, List, [], ◌∷◌, ◌++◌,
  map, All, All-append, Bool-cases, Option-cases,
}
use btcwallet.Prelude.Int.{ℤ, pos, ltb_ℤ, leb_ℤ, wrap64, ◌+ℤ◌, ◌-ℤ◌}
use btcwallet.TxStore.Types.{OutPoint, TxOut}
use btcwallet.CreateTx.{select_inputs, select_loop, Selection, selected, insufficient_funds}
use btcwallet.CreateTx.Pairs.{
  Made, made, refused, NewTx, Coin, coin_amount, Calls, Settings, CreatedTx, Round, stopped, again,
  finished, unsigned, sign_each, needed_fee, finish_round, add_change, get_change_address,
  spend_inputs, try_fee, fee_loop, validated, eligible_coins, start_pairs, tx_to_pairs,
}
use btcwallet.CreateTx.Pairs.Outputs.{Made-cases}
use btcwallet.CreateTx.Pairs.Signing.{
  previous_outs, sign_each_lem, KeepsShape, previous_outs-unsigned,
}
use btcwallet.CreateTx.Pairs.Rounds.{Round-cases, Selection-cases}
use btcwallet.CreateTx.Pairs.Start.{made-inj}
use btcwallet.CreateTx.Pairs.Balance.{validated-made}

module _ (P : OutPoint → Type 0) where
  abbrev pub OfCoin : Coin → Type 0
  OfCoin c = P c.out_point

  abbrev Selects : Selection Coin → Type 0
  Selects (selected ins out) = All OfCoin ins
  Selects (insufficient_funds i o f) = Unit

  select_loop_chosen :
      (amt fee : ℤ) (chosen : List Coin) (out : ℤ) (cs : List Coin)
      → All OfCoin chosen
      → All OfCoin cs
      → Selects (select_loop coin_amount amt fee chosen out cs)
  unfolding select_loop
  select_loop_chosen amt fee chosen out [] h g =
      elim (Bool-cases (ltb_ℤ out (wrap64 (amt +ℤ fee)))) [
        | inl short ↦ rw (short, select_loop) tt
        | inr covered ↦ rw (covered, select_loop) h
      ]
  select_loop_chosen amt fee chosen out (c ∷ cs) h g =
      let chosen' = chosen ++ (c ∷ []) in
      let out' = wrap64 (out +ℤ coin_amount c) in
      let h' = All-append OfCoin chosen (c ∷ []) h (g.0, tt) in
      elim (Bool-cases (leb_ℤ (wrap64 (amt +ℤ fee)) out')) [
        | inl covered ↦ rw (covered, select_loop) h'
        | inr short ↦ rw (short, select_loop) (select_loop_chosen amt fee chosen' out' cs h' g.1)
      ]

  points_of : (cs : List Coin) → All OfCoin cs → All P (map (λ c. c.out_point) cs)
  points_of [] h = tt
  points_of (c ∷ cs) h = (h.0, points_of cs h.1)

  abbrev Spends : NewTx → Type 0
  Spends tx = All P (previous_outs tx.tx_in)

  abbrev RoundSpends : Round → Type 0
  RoundSpends (stopped e) = Unit
  RoundSpends (again f) = Unit
  RoundSpends (finished tx ins) = Spends tx

  module _ (calls : Calls) (settings : Settings) (height amt : ℤ) where
    finish_round-RoundSpends :
        (fee : ℤ) (outs : List TxOut) (inputs : List Coin) (keys : calls.Keys)
        → All OfCoin inputs
        → RoundSpends (finish_round calls settings height fee outs inputs keys)
    unfolding finish_round
    finish_round-RoundSpends fee outs inputs keys h =
        let tx : NewTx = record { tx_in = unsigned inputs; tx_out = outs } in
        elim (Made-cases (sign_each calls settings keys tx 0 inputs)) [
          | inl (e, bad) ↦ rw (bad, finish_round) tt
          | inr (signed, good) ↦
              let shape : KeepsShape tx (made signed) =
                rw good at (sign_each_lem calls settings keys tx 0 inputs) in
              let points = shape.1 ∙ previous_outs-unsigned inputs in
              elim (Bool-cases (ltb_ℤ fee (needed_fee calls settings height signed inputs))) [
                | inl more ↦ rw (good, more, finish_round) tt
                | inr enough ↦
                    rw (good, enough, finish_round)
                      (subst (λ os. All P os) (sym points) (points_of inputs h))
              ]
        ]

    spend_inputs-RoundSpends :
        (fee change : ℤ) (outs : List TxOut) (inputs : List Coin) (addr : Option calls.Address)
        (keys : calls.Keys)
        → All OfCoin inputs
        → RoundSpends (spend_inputs calls settings height fee change outs inputs addr keys).0
    unfolding spend_inputs
    spend_inputs-RoundSpends fee change outs inputs addr keys h =
        elim (Bool-cases (ltb_ℤ (pos 0) change)) [
          | inr no_change ↦
              rw (no_change, spend_inputs) (finish_round-RoundSpends fee outs inputs keys h)
          | inl some_change ↦
              let keys' = (get_change_address calls settings addr keys).1 in
              elim (Option-cases (get_change_address calls settings addr keys).0) [
                | inl bad ↦ rw (some_change, bad, spend_inputs) tt
                | inr (a, got) ↦ elim (Option-cases (calls.pay_to_addr_script a)) [
                  | inl bad ↦ rw (some_change, got, bad, spend_inputs) tt
                  | inr (script, paid) ↦
                      rw (some_change, got, paid, spend_inputs)
                        (finish_round-RoundSpends fee (add_change calls settings change script outs)
                          inputs keys' h)
                ]
              ]
        ]

    try_fee-RoundSpends :
        (outs : List TxOut) (eligible : List Coin) (fee : ℤ) (addr : Option calls.Address)
        (keys : calls.Keys)
        → All OfCoin eligible
        → RoundSpends (try_fee calls settings height amt outs eligible fee addr keys).0
    unfolding try_fee select_inputs
    try_fee-RoundSpends outs eligible fee addr keys h =
        let sel = select_loop_chosen amt fee [] (pos 0) eligible tt h in
        elim (Selection-cases (select_inputs coin_amount eligible amt fee)) [
          | inl (i, o, f, bad) ↦ rw (bad, try_fee) tt
          | inr (inputs, out, good) ↦
              rw (good, try_fee)
                (spend_inputs-RoundSpends fee (wrap64 (wrap64 (out -ℤ amt) -ℤ fee)) outs inputs addr
                  keys (subst Selects good sel))
        ]

    fee_loop-Spends :
        (fuel : ℕ) (outs : List TxOut) (eligible : List Coin) (fee : ℤ)
        (addr : Option calls.Address) (keys keys' : calls.Keys) (c : CreatedTx calls.Address)
        → All OfCoin eligible
        → fee_loop calls settings fuel height amt outs eligible fee addr keys ≡ some (made c, keys')
        → Spends c.tx
    unfolding fee_loop
    fee_loop-Spends zero outs eligible fee addr keys keys' c h eq = absurd (cc)
    fee_loop-Spends (suc fuel) outs eligible fee addr keys keys' c h eq =
        let r = try_fee calls settings height amt outs eligible fee addr keys in
        let ok = try_fee-RoundSpends outs eligible fee addr keys h in
        elim (Round-cases r.0) [
          | inl (e, stop) ↦ absurd (let clash = rw (stop, fee_loop) at eq in cc)
          | inr (inl (f, more)) ↦
              fee_loop-Spends fuel outs eligible f r.1 r.2 keys' c h (rw (more, fee_loop) at eq)
          | inr (inr (tx, ins, fin)) ↦
              let made_c = rw (fin, fee_loop) at eq in
              let result : CreatedTx calls.Address = record {
                tx = tx;
                inputs = ins;
                change_addr = r.1;
              } in
              let whole : made result ≡ made c = cc in
              let same : tx ≡ c.tx = ap (λ d. d.tx) (made-inj result c whole) in
              subst Spends same (subst RoundSpends fin ok)
        ]

  module _ (calls : Calls) (settings : Settings) (minconf : ℤ)
      (locked_outpoint : OutPoint → Bool) where
    validated-Spends :
        (height amt : ℤ) (fuel : ℕ) (outs : List TxOut) (eligible : List Coin) (keys : calls.Keys)
        (o : Option (Made (CreatedTx calls.Address) × calls.Keys)) (keys' : calls.Keys)
        (c : CreatedTx calls.Address)
        → All OfCoin eligible
        → fee_loop calls settings fuel height amt outs eligible (pos 0) none keys ≡ o
        → elim o as (λ x. Option (Made (CreatedTx calls.Address) × calls.Keys)) [
          | none ↦ none
          | some r ↦ some (validated calls settings r.0, r.1)
        ]
          ≡ some (made c, keys')
        → Spends c.tx
    validated-Spends height amt fuel outs eligible keys none keys' c h loop eq = absurd (cc)
    validated-Spends height amt fuel outs eligible keys (some (refused e, k)) keys' c h loop eq =
        absurd (cc)
    validated-Spends height amt fuel outs eligible keys (some (made d, k)) keys' c h loop eq =
        let valid : validated calls settings (made d) ≡ made c = cc in
        let same : d ≡ c = made-inj d c (validated-made calls settings (made d) c valid) in
        subst (λ e. Spends e.tx) same
          (fee_loop-Spends calls settings height amt fuel outs eligible (pos 0) none keys k d h
            loop)

    -- A transaction that txToPairs makes spends only outpoints of which `P` holds, if it holds of
    -- those that may be spent.
    pub tx_to_pairs_points :
        (fuel : ℕ) (pairs : List (List ℕ × ℤ)) (block_height : Option ℤ)
        (unspent : Option (List Coin)) (keys keys' : calls.Keys) (c : CreatedTx calls.Address)
        → ((height : ℤ) (coins : List Coin)
            → All OfCoin (eligible_coins calls settings minconf locked_outpoint height coins))
        → tx_to_pairs calls settings fuel pairs minconf locked_outpoint block_height unspent keys
          ≡ some (made c, keys')
        → All P (previous_outs c.tx.tx_in)
    unfolding tx_to_pairs
    tx_to_pairs_points fuel pairs block_height unspent keys keys' c may eq =
        elim (Made-cases (start_pairs calls settings pairs block_height unspent keys)) [
          | inl (e, bad) ↦ absurd (let clash = rw (bad, tx_to_pairs) at eq in cc)
          | inr ((amt, outs, height, coins), begun) ↦
              validated-Spends height amt fuel outs
                (eligible_coins calls settings minconf locked_outpoint height coins) keys _ keys' c
                (may height coins) refl (rw (begun, tx_to_pairs) at eq)
        ]
