-- ===== src/CreateTx/Select.antt =====
-- What `selectInputs` chooses, for amounts that are not negative and whose total is an int64.
use btcwallet.Prelude.{
  ◌<◌, ◌≡◌, refl, false, inl, inr, List, [], ◌∷◌, ◌++◌, arith, All, Bool-cases, if◌then◌else◌, sym,
  ap, leb→le, ◌∙◌,
}
use btcwallet.Prelude.Int.{
  ℤ, pos, pos_part, ◌+ℤ◌, ◌≤ℤ◌, ◌<ℤ◌, leb_ℤ, wrap64, wrap64_nonneg, nonneg_parts, int_laws, IsInt64,
  wrap64_self,
}
use btcwallet.CreateTx.{selected, insufficient_funds, select_loop, select_inputs}
use mathlib.Core.List.{append_assoc}

module _ {C : Type 0} (amount : C → ℤ) where
  unfoldable pub total : List C → ℤ
  total [] = pos 0
  total (e ∷ es) = amount e +ℤ total es

  abbrev pub IsNonneg : C → Type 0
  IsNonneg e = pos 0 ≤ℤ amount e

  -- Each of the inputs was needed: what stands before it, with `acc`, is short of the target.
  abbrev pub AllNeeded : ℤ → ℤ → List C → Type 0
  AllNeeded target acc [] = Unit
  AllNeeded target acc (e ∷ es) = (acc <ℤ target) × AllNeeded target (acc +ℤ amount e) es

  pub total_nonneg : (es : List C) → All IsNonneg es → pos 0 ≤ℤ total es
  unfolding total
  total_nonneg [] h = omega arith
  total_nonneg (e ∷ es) h = omega (int_laws, total_nonneg es h.1)

  step_exact :
      (out : ℤ) (e : C) (es : List C)
      → pos 0 ≤ℤ out
      → All IsNonneg (e ∷ es)
      → pos_part (out +ℤ total (e ∷ es)) < 9223372036854775808
      → wrap64 (out +ℤ amount e) ≡ out +ℤ amount e
  unfolding total
  step_exact out e es ho h b = wrap64_nonneg (out +ℤ amount e) (omega int_laws) (
      omega (
        int_laws,
        total_nonneg es h.1,
        nonneg_parts (out +ℤ amount e) (omega int_laws),
        nonneg_parts (out +ℤ (amount e +ℤ total es)) (omega (int_laws, total_nonneg es h.1)),
      ))

  regroup : (out : ℤ) (e : C) (es : List C) → out +ℤ total (e ∷ es) ≡ out +ℤ amount e +ℤ total es
  unfolding total
  regroup out e es = omega int_laws

  total_one : (out : ℤ) (e : C) → out +ℤ total (e ∷ []) ≡ out +ℤ amount e
  unfolding total
  total_one out e = omega int_laws

  zero_total : (es : List C) → pos 0 +ℤ total es ≡ total es
  zero_total es = omega int_laws

  -- What a run of the loop from `chosen` and `out` has added.
  abbrev Extends : ℤ → ℤ → List C → List C → List C → ℤ → Type 0
  Extends target out chosen es chosen' out' =
      (front : List C) × (rest : List C) × (chosen' ≡ chosen ++ front)
      × (front ++ rest ≡ es)
      × (out' ≡ out +ℤ total front)
      × (target ≤ℤ out')
      × AllNeeded target out front

  select_loop_step :
      (amt fee target : ℤ) (chosen : List C) (out : ℤ) (e : C) (es : List C)
      → wrap64 (amt +ℤ fee) ≡ target
      → wrap64 (out +ℤ amount e) ≡ out +ℤ amount e
      → select_loop amount amt fee chosen out (e ∷ es) ≡ (
          if leb_ℤ target (out +ℤ amount e)
          then selected (chosen ++ (e ∷ [])) (out +ℤ amount e)
          else select_loop amount amt fee (chosen ++ (e ∷ [])) (out +ℤ amount e) es)
  unfolding select_loop
  select_loop_step amt fee target chosen out e es t x = rw (x, t) refl

  select_loop_sound :
      (amt fee target : ℤ) (chosen : List C) (out : ℤ) (es : List C) (chosen' : List C) (out' : ℤ)
      → wrap64 (amt +ℤ fee) ≡ target
      → pos 0 ≤ℤ out
      → out <ℤ target
      → All IsNonneg es
      → pos_part (out +ℤ total es) < 9223372036854775808
      → select_loop amount amt fee chosen out es ≡ selected chosen' out'
      → Extends target out chosen es chosen' out'
  select_loop_sound amt fee target chosen out [] chosen' out' t ho lt h b eq =
      absurd (unfold select_loop in ground arith)
  select_loop_sound amt fee target chosen out (e ∷ es) chosen' out' t ho lt h b eq =
      let exact = step_exact out e es ho h b in
      let eq' = sym (select_loop_step amt fee target chosen out e es t exact) ∙ eq in
      elim (Bool-cases (leb_ℤ target (out +ℤ amount e))) [
        | inl enough ↦
            let eq'' = rw enough at eq' in
            let out_eq : out' ≡ out +ℤ amount e = cc in
            (
              e ∷ [],
              es,
              cc,
              refl,
              out_eq ∙ sym (total_one out e),
              rw out_eq (leb→le _ _ enough),
              (lt, tt),
            )
        | inr short ↦
            let (front, rest, p, q, r, s, n) =
              select_loop_sound amt fee target (chosen ++ (e ∷ [])) (out +ℤ amount e) es chosen'
                out' t (omega int_laws) (ground arith) h.1 (rw (← regroup out e es) b)
                (rw short at eq') in
            (
              e ∷ front,
              rest,
              p ∙ append_assoc chosen (e ∷ []) front,
              ap (λ l. e ∷ l) q,
              r ∙ sym (regroup out e front),
              s,
              (lt, n),
            )
      ]

  select_loop_covers :
      (amt fee target : ℤ) (chosen : List C) (out : ℤ) (es : List C)
      → wrap64 (amt +ℤ fee) ≡ target
      → pos 0 ≤ℤ out
      → out <ℤ target
      → All IsNonneg es
      → pos_part (out +ℤ total es) < 9223372036854775808
      → target ≤ℤ out +ℤ total es
      → (chosen' : List C) × (out' : ℤ) × (select_loop amount amt fee chosen out es
          ≡ selected chosen' out')
  select_loop_covers amt fee target chosen out [] t ho lt h b cover =
      absurd (unfold total in omega int_laws)
  select_loop_covers amt fee target chosen out (e ∷ es) t ho lt h b cover =
      elim (Bool-cases (leb_ℤ target (out +ℤ amount e))) [
        | inl enough ↦ (
          chosen ++ (e ∷ []),
          out +ℤ amount e,
          select_loop_step amt fee target chosen out e es t (step_exact out e es ho h b)
              ∙ rw enough refl,
        )
        | inr short ↦
            let (chosen', out', eq) =
              select_loop_covers amt fee target (chosen ++ (e ∷ [])) (out +ℤ amount e) es t
                (omega int_laws) (ground arith) h.1 (rw (← regroup out e es) b)
                (rw (← regroup out e es) cover) in
            (
              chosen',
              out',
              select_loop_step amt fee target chosen out e es t (step_exact out e es ho h b)
                  ∙ rw short eq,
            )
      ]

  add_zero : (out : ℤ) → out +ℤ pos 0 ≡ out
  add_zero out = omega int_laws

  not_enough :
      (target out : ℤ) (e : C) (es : List C)
      → All IsNonneg (e ∷ es)
      → out +ℤ total (e ∷ es) <ℤ target
      → leb_ℤ target (out +ℤ amount e) ≡ false
  unfolding total
  not_enough target out e es h less =
      let lt : out +ℤ amount e <ℤ target = omega (int_laws, total_nonneg es h.1) in ground arith

  select_loop_short :
      (amt fee target : ℤ) (chosen : List C) (out : ℤ) (es : List C)
      → wrap64 (amt +ℤ fee) ≡ target
      → pos 0 ≤ℤ out
      → All IsNonneg es
      → pos_part (out +ℤ total es) < 9223372036854775808
      → out +ℤ total es <ℤ target
      → select_loop amount amt fee chosen out es ≡ insufficient_funds (out +ℤ total es) amt fee
  select_loop_short amt fee target chosen out [] t ho h b less =
      unfold select_loop total in rw t (ground (arith, add_zero out))
  select_loop_short amt fee target chosen out (e ∷ es) t ho h b less =
      select_loop_step amt fee target chosen out e es t (step_exact out e es ho h b)
      ∙ rw (not_enough target out e es h less) (
          rw (regroup out e es) (
            select_loop_short amt fee target (chosen ++ (e ∷ [])) (out +ℤ amount e) es t
              (omega int_laws) h.1 (rw (← regroup out e es) b) (rw (← regroup out e es) less)))

  -- Where `selectInputs` returns inputs, they are the first of the eligible ones in their order, the
  -- amount returned is their total, it covers the amount and the fee, and each input was needed:
  -- what stands before it does not cover them. The amounts are not negative, their total and the
  -- amount with the fee are int64s, and the latter is positive.
  pub select_inputs_sound :
      (eligible : List C) (amt fee : ℤ) (inputs : List C) (out : ℤ)
      → All IsNonneg eligible
      → pos_part (total eligible) < 9223372036854775808
      → IsInt64 (amt +ℤ fee)
      → pos 0 <ℤ amt +ℤ fee
      → select_inputs amount eligible amt fee ≡ selected inputs out
      → (rest : List C) × (inputs ++ rest ≡ eligible)
        × (out ≡ total inputs)
        × (amt +ℤ fee ≤ℤ out)
        × AllNeeded (amt +ℤ fee) (pos 0) inputs
  unfolding select_inputs
  select_inputs_sound eligible amt fee inputs out h b i p eq =
      let (front, rest, c, s, o, t, n) =
        select_loop_sound amt fee (amt +ℤ fee) [] (pos 0) eligible inputs out (wrap64_self _ i)
          (omega arith) p h (rw (zero_total eligible) b) eq in
      (rest, rw c s, rw (c, o) (zero_total front), t, rw c n)

  -- `selectInputs` returns inputs whenever the eligible ones cover the amount and the fee, for
  -- amounts that are not negative, a total that is an int64, and an amount with fee that is a positive
  -- int64.
  pub select_inputs_covers :
      (eligible : List C) (amt fee : ℤ)
      → All IsNonneg eligible
      → pos_part (total eligible) < 9223372036854775808
      → IsInt64 (amt +ℤ fee)
      → pos 0 <ℤ amt +ℤ fee
      → amt +ℤ fee ≤ℤ total eligible
      → (inputs : List C) × (out : ℤ) × (select_inputs amount eligible amt fee
          ≡ selected inputs out)
  unfolding select_inputs
  select_inputs_covers eligible amt fee h b i p cover =
      select_loop_covers amt fee (amt +ℤ fee) [] (pos 0) eligible (wrap64_self _ i) (omega arith) p
        h (rw (zero_total eligible) b) (rw (zero_total eligible) cover)

  -- Where the eligible inputs do not cover the amount and the fee, `selectInputs` returns
  -- InsufficientFunds with their total, the amount and the fee, for amounts that are not negative, a
  -- total that is an int64, and an amount with fee that is an int64.
  pub select_inputs_insufficient :
      (eligible : List C) (amt fee : ℤ)
      → All IsNonneg eligible
      → pos_part (total eligible) < 9223372036854775808
      → IsInt64 (amt +ℤ fee)
      → total eligible <ℤ amt +ℤ fee
      → select_inputs amount eligible amt fee ≡ insufficient_funds (total eligible) amt fee
  unfolding select_inputs
  select_inputs_insufficient eligible amt fee h b i less = rw (← zero_total eligible) (
      select_loop_short amt fee (amt +ℤ fee) [] (pos 0) eligible (wrap64_self _ i) (omega arith) h
        (rw (zero_total eligible) b) (rw (zero_total eligible) less))
