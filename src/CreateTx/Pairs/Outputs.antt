-- ===== src/CreateTx/Pairs/Outputs.antt =====
-- The outputs of a transaction that txToPairs makes, and their sum.
use btcwallet.Prelude.{
  ℕ, ◌+◌, ◌<◌, ◌≡◌, ◌≢◌, ◌⊎◌, refl, ap, ◌∙◌, inl, inr, some, List, [], ◌∷◌, ◌++◌, arith, set,
  get_elem?, length, All, Bool-cases, Option-cases, ◌==◌, ==_iff, set_same, set-set,
  get_elem?-set_ne,
}
use btcwallet.Prelude.Int.{
  ℤ, pos, pos_part, neg_part, ◌+ℤ◌, ◌≤ℤ◌, ◌<ℤ◌, leb_ℤ, wrap64, wrap64_nonneg, nonneg_parts,
  int_laws,
}
use btcwallet.TxStore.Types.{TxOut}
use btcwallet.CreateTx.Select.{total, total_nonneg}
use btcwallet.CreateTx.Pairs.{
  Made, made, refused, TxError, Calls, Settings, sum_amounts, swap, add_change, make_outputs,
}

-- An equation of integers in the form that `omega` reads.
pub parts_of_eq : (a b : ℤ) → a ≡ b → pos_part a + neg_part b ≡ pos_part b + neg_part a
parts_of_eq a b h = rw h refl

module _ {C : Type 0} (f : C → ℤ) where
  total-set :
      (xs : List C) (i : ℕ) (x v : C)
      → get_elem? xs i ≡ some x
      → total f (set xs i v) +ℤ f x ≡ total f xs +ℤ f v
  unfolding total
  total-set [] i x v h = absurd (cc)
  total-set (y ∷ xs) ℕ.zero x v h = let e : y ≡ x = cc in rw e (omega int_laws)
  total-set (y ∷ xs) (ℕ.suc i) x v h = omega (int_laws, parts_of_eq _ _ (total-set xs i x v h))

  pub total-append : (xs ys : List C) → total f (xs ++ ys) ≡ total f xs +ℤ total f ys
  unfolding total
  total-append [] ys = omega int_laws
  total-append (x ∷ xs) ys = omega (int_laws, parts_of_eq _ _ (total-append xs ys))

  swap_both :
      (xs : List C) (i j : ℕ) (x y : C)
      → get_elem? xs i ≡ some x
      → get_elem? xs j ≡ some y
      → total f (set (set xs i y) j x) ≡ total f xs
  swap_both xs i j x y hi hj = elim (Bool-cases (i == j)) [
    | inl e ↦
        let same : i ≡ j = (==_iff i j).0 e in
        let at_i : get_elem? xs i ≡ some y = rw same hj in
        rw (← same, set-set xs i y x, set_same xs i hi) refl
    | inr e ↦
        let ne : i ≢ j = λ same. ground (arith, ==_iff i j) in
        omega (
          int_laws,
          parts_of_eq _ _ (total-set xs i x y hi),
          parts_of_eq _ _ (total-set (set xs i y) j y x (get_elem?-set_ne xs i j y ne ∙ hj)),
        )
  ]

  -- To swap two elements leaves the sum.
  pub total-swap : (xs : List C) (i j : ℕ) → total f (swap xs i j) ≡ total f xs
  unfolding swap
  total-swap xs i j = elim (Option-cases (get_elem? xs i)) [
    | inl missing ↦ rw (missing, swap) refl
    | inr (x, hi) ↦ elim (Option-cases (get_elem? xs j)) [
      | inl missing ↦ rw (hi, missing, swap) refl
      | inr (y, hj) ↦ rw (hi, hj, swap) (swap_both xs i j x y hi hj)
    ]
  ]

abbrev pub output_value : TxOut → ℤ
output_value o = o.value

abbrev pub pair_value : List ℕ × ℤ → ℤ
pair_value p = p.1

total_last :
    (outs : List TxOut) (o : TxOut)
    → total output_value outs +ℤ total output_value (o ∷ [])
      ≡ total output_value outs +ℤ output_value o
unfolding total
total_last outs o = omega int_laws

pub total-add_change :
    (calls : Calls) (settings : Settings) (change : ℤ) (script : List ℕ) (outs : List TxOut)
    → total output_value (add_change calls settings change script outs)
      ≡ total output_value outs +ℤ change
unfolding add_change
total-add_change calls settings change script outs =
    let last : TxOut = record { value = change; pk_script = script } in
    total-swap output_value (outs ++ (last ∷ [])) _ (length outs)
    ∙ (total-append output_value outs (last ∷ []) ∙ total_last outs last)

-- To split on the outcome of a step.
pub Made-cases :
    {A : Type 0} (m : Made A) → ((e : TxError) × (m ≡ refused e)) ⊎ ((a : A) × (m ≡ made a))
Made-cases (made a) = inr (a, refl)
Made-cases (refused e) = inl (e, refl)

made-inj : {A : Type 0} (a b : A) → made a ≡ made b → a ≡ b
made-inj a b h = cc

-- The outputs for the pairs carry their amounts.
pub total-make_outputs :
    (calls : Calls) (settings : Settings) (pairs : List (List ℕ × ℤ)) (outs : List TxOut)
    → make_outputs calls settings pairs ≡ made outs
    → total output_value outs ≡ total pair_value pairs
unfolding make_outputs total
total-make_outputs calls settings [] outs h = rw (← made-inj _ _ h) refl
total-make_outputs calls settings ((addr, v) ∷ pairs) outs h =
    elim (Option-cases (calls.decode_address addr)) [
      | inl bad ↦ absurd (let clash = rw (bad, make_outputs) at h in cc)
      | inr (a, decoded) ↦ elim (Option-cases (calls.pay_to_addr_script a)) [
        | inl bad ↦ absurd (let clash = rw (decoded, bad, make_outputs) at h in cc)
        | inr (script, paid) ↦ elim (Made-cases (make_outputs calls settings pairs)) [
          | inl (e, bad) ↦ absurd (let clash = rw (decoded, paid, bad) at h in cc)
          | inr (rest, made_rest) ↦
              let o : TxOut = record { value = v; pk_script = script } in
              let whole : made (o ∷ rest) ≡ made outs = rw (decoded, paid, made_rest) at h in
              rw (← made-inj (o ∷ rest) outs whole)
                (ap (λ z. v +ℤ z) (total-make_outputs calls settings pairs rest made_rest))
        ]
      ]
    ]

abbrev IsPositive : List ℕ × ℤ → Type 0
IsPositive p = pos 0 ≤ℤ pair_value p

sum_amounts-IsPositive :
    (acc : ℤ) (pairs : List (List ℕ × ℤ)) (amt : ℤ)
    → sum_amounts acc pairs ≡ made amt
    → All (λ p. pos 0 <ℤ pair_value p) pairs
unfolding sum_amounts
sum_amounts-IsPositive acc [] amt h = tt
sum_amounts-IsPositive acc ((addr, v) ∷ pairs) amt h = elim (Bool-cases (leb_ℤ v (pos 0))) [
  | inl bad ↦ absurd (let clash = rw bad at h in cc)
  | inr good ↦ (ground arith, sum_amounts-IsPositive (wrap64 (acc +ℤ v)) pairs amt (rw good at h))
]

All-le : (pairs : List (List ℕ × ℤ)) → All (λ p. pos 0 <ℤ pair_value p) pairs → All IsPositive pairs
All-le [] h = tt
All-le (p ∷ pairs) h = (omega arith, All-le pairs h.1)

-- The sum of the amounts is exact where it does not overflow.
pub sum_amounts_lem :
    (acc : ℤ) (pairs : List (List ℕ × ℤ)) (amt : ℤ)
    → pos 0 ≤ℤ acc
    → pos_part (acc +ℤ total pair_value pairs) < 9223372036854775808
    → sum_amounts acc pairs ≡ made amt
    → amt ≡ acc +ℤ total pair_value pairs
unfolding sum_amounts total
sum_amounts_lem acc [] amt h b eq = rw (← made-inj _ _ eq) (omega int_laws)
sum_amounts_lem acc ((addr, v) ∷ pairs) amt h b eq =
    let positive = sum_amounts-IsPositive acc ((addr, v) ∷ pairs) amt eq in
    let rest_nonneg = total_nonneg pair_value pairs (All-le pairs positive.1) in
    let exact : wrap64 (acc +ℤ v) ≡ acc +ℤ v = wrap64_nonneg (acc +ℤ v) (omega int_laws) (
      omega (
        int_laws,
        nonneg_parts (acc +ℤ v) (omega int_laws),
        nonneg_parts (acc +ℤ (v +ℤ total pair_value pairs)) (omega int_laws),
      )) in
    elim (Bool-cases (leb_ℤ v (pos 0))) [
      | inl bad ↦ absurd (let clash = rw bad at eq in cc)
      | inr good ↦
          let regroup : acc +ℤ v +ℤ total pair_value pairs ≡ acc +ℤ (v +ℤ total pair_value pairs) =
            omega int_laws in
          let later =
            sum_amounts_lem (acc +ℤ v) pairs amt (omega int_laws) (rw regroup b)
              (rw (good, exact) at eq) in
          later ∙ regroup
    ]

-- The amount is positive if there is a pair.
pub sum_amounts_positive :
    (p : List ℕ × ℤ) (pairs : List (List ℕ × ℤ)) (amt : ℤ)
    → pos_part (total pair_value (p ∷ pairs)) < 9223372036854775808
    → sum_amounts (pos 0) (p ∷ pairs) ≡ made amt
    → (amt ≡ total pair_value (p ∷ pairs)) × (pos 0 <ℤ amt)
sum_amounts_positive p pairs amt b eq =
    let zero_sum : pos 0 +ℤ total pair_value (p ∷ pairs) ≡ total pair_value (p ∷ pairs) =
      omega int_laws in
    let positive = sum_amounts-IsPositive (pos 0) (p ∷ pairs) amt eq in
    let same =
      sum_amounts_lem (pos 0) (p ∷ pairs) amt (omega arith) (rw zero_sum b) eq ∙ zero_sum in
    (
      same,
      rw same (
          unfold total in
          omega (int_laws, total_nonneg pair_value pairs (All-le pairs positive.1))),
    )
