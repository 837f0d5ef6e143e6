-- ===== src/CreateTx.antt =====
-- Choosing inputs and fees (createtx.go).
pub mod Select
pub mod Fees
pub mod Pairs
use btcwallet.Prelude.{
  ℕ, ◌+◌, ◌*◌, ◌/◌, Bool, true, false, ◌&&◌, List, [], ◌∷◌, ◌++◌, leb, ltb, if◌then◌else◌,
}
use btcwallet.Prelude.Int.{
  ℤ, pos, negsuc, eqb_ℤ, leb_ℤ, ltb_ℤ, minus_one, ◌+ℤ◌, ◌-ℤ◌, ◌*ℤ◌, wrap32, wrap64,
}

-- The result of `selectInputs`: the inputs with their total, or InsufficientFunds.
pub data Selection (C : Type 0) : Type 0 where
  selected : List C → ℤ → Selection C
  insufficient_funds : ℤ → ℤ → ℤ → Selection C

-- A credit is what the caller has, with `amount` for `Credit.Amount`.
module _ {C : Type 0} (amount : C → ℤ) where
  -- The loop of `selectInputs`, from the inputs appended and the total so far.
  unfoldable pub select_loop : ℤ → ℤ → List C → ℤ → List C → Selection C
  select_loop amt fee chosen out [] =
      if ltb_ℤ out (wrap64 (amt +ℤ fee))
      then insufficient_funds out amt fee
      else selected chosen out
  select_loop amt fee chosen out (e ∷ es) =
      let chosen' = chosen ++ (e ∷ []) in
      let out' = wrap64 (out +ℤ amount e) in
      let rest = select_loop amt fee chosen' out' es in
      if leb_ℤ (wrap64 (amt +ℤ fee)) out' then selected chosen' out' else rest

  -- `selectInputs`
  unfoldable pub select_inputs : List C → ℤ → ℤ → Selection C
  select_inputs eligible amt fee = select_loop amt fee [] (pos 0) eligible

-- The constants of btcutil that a fee is bounded by.
pub record Limits : Type 0 where
  pub satoshi_per_bitcent : ℕ
  pub max_satoshi : ℕ

abbrev pub any_below : ℤ → List ℤ → Bool
any_below limit [] = false
any_below limit (v ∷ vs) = if ltb_ℤ v limit then true else any_below limit vs

-- `minimumFee`, of a transaction with a serialized size and the values of its outputs.
unfoldable pub minimum_fee : Limits → ℤ → ℕ → List ℤ → Bool → ℤ
minimum_fee l incr tx_len values allow_free =
    let base = wrap64 (pos (1 + tx_len / 1000) *ℤ incr) in
    let fee = if allow_free && ltb tx_len 1000 then pos 0 else base in
    if ltb_ℤ fee incr && any_below (pos l.satoshi_per_bitcent) values
    then incr
    else if ltb_ℤ fee (pos 0)
    then pos l.max_satoshi
    else if ltb_ℤ (pos l.max_satoshi) fee
    then pos l.max_satoshi
    else fee

-- `chainDepth`
unfoldable pub chain_depth : ℤ → ℤ → ℤ
chain_depth target current =
    if eqb_ℤ target minus_one then pos 0 else wrap32 (wrap32 (current -ℤ target) +ℤ pos 1)
