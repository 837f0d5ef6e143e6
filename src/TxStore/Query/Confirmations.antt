-- ===== src/TxStore/Query/Confirmations.antt =====
-- Confirmations and the order of credits.
use btcwallet.Prelude.{
  ◌<◌, ◌≡◌, ◌≢◌, ◌↔◌, true, false, ◌⊎◌, inl, inr, arith, Bool-cases, leb→le, le→leb,
}
use btcwallet.Prelude.Int.{
  ℤ, pos, pos_part, neg_part, minus_one, leb_ℤ, ◌+ℤ◌, ◌-ℤ◌, ◌≤ℤ◌, ◌<ℤ◌, wrap32, wrap32_self,
  wrap32_nonneg, nonneg_parts, IsInt32, int_laws,
}
use btcwallet.TxStore.Types.{Time, CreditHandle, RecordRef, unmined_key}
use btcwallet.TxStore.Query.{confirms, confirmed, credit_less}

-- A block height: an int32 that is not negative.
abbrev pub IsHeight : ℤ → Type 0
IsHeight h = (neg_part h ≡ 0) × (pos_part h < 2147483647)

confirms_exact :
    (h cur : ℤ) → IsHeight h → IsHeight cur → h ≤ℤ cur → confirms h cur ≡ cur -ℤ h +ℤ pos 1
unfolding confirms
confirms_exact h cur hh hc le =
    let n = nonneg_parts (cur -ℤ h) (omega int_laws) in
    let m = nonneg_parts (cur -ℤ h +ℤ pos 1) (omega int_laws) in
    let d : wrap32 (cur -ℤ h) ≡ cur -ℤ h = wrap32_nonneg _ (omega int_laws) (omega (int_laws, n)) in
    let e : wrap32 (cur -ℤ h +ℤ pos 1) ≡ cur -ℤ h +ℤ pos 1 =
      wrap32_nonneg _ (omega int_laws) (omega (int_laws, m)) in
    rw d (ground (arith, e))

confirms_above : (h cur : ℤ) → cur <ℤ h → confirms h cur ≡ pos 0
unfolding confirms
confirms_above h cur lt = ground arith

-- A transaction mined at height `h` has `minconf` confirmations at height `cur` exactly if
-- `minconf` is not positive, or `h + minconf` is at most `cur + 1`. `minconf` is an int32, and the
-- heights are int32s that are not negative and below the largest.
pub confirmed_iff :
    (minconf h cur : ℤ)
    → IsInt32 minconf
    → IsHeight h
    → IsHeight cur
    → (confirmed minconf h cur ≡ true) ↔ ((minconf ≤ℤ pos 0) ⊎ (h +ℤ minconf ≤ℤ cur +ℤ pos 1))
unfolding confirmed
confirmed_iff minconf h cur hm hh hc = elim (Bool-cases (leb_ℤ h cur)) [
  | inl mined ↦
      let le : h ≤ℤ cur = leb→le _ _ mined in
      rw (wrap32_self minconf hm, confirms_exact h cur hh hc le)
        (λ e. let k = leb→le _ _ e in inr (omega int_laws), λ e. le→leb _ _ (omega int_laws))
  | inr above ↦
      let lt : cur <ℤ h = ground arith in
      rw (wrap32_self minconf hm, confirms_above h cur lt)
        (λ e. let k = leb→le _ _ e in inl (omega int_laws), λ e. le→leb _ _ (omega int_laws))
]

-- Nothing that is not mined has a confirmation.
pub unmined_confirmed :
    (minconf cur : ℤ) → IsInt32 minconf → pos 1 ≤ℤ minconf → confirmed minconf minus_one cur ≡ false
unfolding confirmed confirms
unmined_confirmed minconf cur h k = rw (wrap32_self minconf h) (ground arith)

-- Of a credit that is not mined and one that is mined above height -1, from other transactions,
-- `Less` puts the former first: it tests the block index for -1, which is the index of neither.
pub credit_less-unmined :
    (received : RecordRef → Time) (a b : CreditHandle)
    → a.tx.ref ≢ b.tx.ref
    → a.tx.key ≡ unmined_key
    → pos 0 ≤ℤ b.tx.key.block_index
    → pos 0 ≤ℤ b.tx.key.block_height
    → (credit_less received a b ≡ true) × (credit_less received b a ≡ false)
unfolding credit_less
credit_less-unmined received a b ne u i h = grind arith
