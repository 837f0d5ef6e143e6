-- ===== src/TxStore/Rollback/Blocks.antt =====
-- The blocks that `Store.Rollback` leaves.
use mathlib.Core.Path.{subst}
use btcwallet.Prelude.{
  ℕ, zero, suc, ◌<◌, ◌≤◌, ◌≡◌, refl, ap, sym, inl, inr, true, false, some, List, [], ◌∷◌, ◌++◌,
  arith, All, length, get_elem?, take, drop, Bool-cases, leb→le,
}
use btcwallet.Prelude.Int.{ℤ, leb_ℤ, ◌≤ℤ◌, ◌<ℤ◌}
use btcwallet.Prelude.Map.{nat_eq}
use btcwallet.TxStore.Types.{Store, out_point_eq, output_key_eq, int_eq, CollectionRef}
use btcwallet.TxStore.Monad.Frame.{Keeps, each-Keeps}
use btcwallet.TxStore.Insert.{slot_for, height_of}
use btcwallet.TxStore.Insert.Index.{IsSorted}
use btcwallet.TxStore.Rollback.{detach_block, rollback}
use btcwallet.TxStore.Rollback.Frame.{detach_block-Keeps}

-- Where the loop that looks for the first detached block stops.
module _ (key : ℕ → ℤ) (k : ℤ) where
  drop-cons :
      (xs : List ℕ) (i : ℕ) {x : ℕ} → get_elem? xs i ≡ some x → drop i xs ≡ x ∷ drop (suc i) xs
  drop-cons [] i e = absurd (cc)
  drop-cons (y ∷ xs) zero e = cc
  drop-cons (y ∷ xs) (suc i) e = drop-cons xs i e

  below_all :
      (x : ℕ) (xs : List ℕ) (i y : ℕ)
      → All (λ z. key x <ℤ key z) xs
      → get_elem? xs i ≡ some y
      → key x <ℤ key y
  below_all x [] i y h e = absurd (cc)
  below_all x (z ∷ xs) zero y h e = let p : z ≡ y = cc in rw (← p) h.0
  below_all x (z ∷ xs) (suc i) y h e = below_all x xs i y h.1 e

  take-below :
      (xs : List ℕ) (i : ℕ) {x : ℕ}
      → IsSorted key xs
      → get_elem? xs i ≡ some x
      → key x <ℤ k
      → All (λ y. key y <ℤ k) (take (suc i) xs)
  take-below [] i s e h = absurd (cc)
  take-below (y ∷ xs) zero {x} s e h = let p : y ≡ x = cc in (rw p h, tt)
  take-below (y ∷ xs) (suc i) {x} s e h =
      let lt = below_all y xs i x s.0 e in (omega arith, take-below xs i s.1 e h)

  at_hand : (xs : List ℕ) (i : ℕ) → i < length xs → (x : ℕ) × (get_elem? xs i ≡ some x)
  at_hand [] i h = elim h [ ]
  at_hand (x ∷ xs) zero h = (x, refl)
  at_hand (x ∷ xs) (suc i) h = at_hand xs i (omega arith)

  slot_for_above :
      (xs : List ℕ) (i : ℕ) {x : ℕ}
      → get_elem? xs i ≡ some x
      → leb_ℤ k (key x) ≡ true
      → slot_for key xs k (suc i) ≡ slot_for key xs k i
  unfolding slot_for
  slot_for_above xs i at above = rw (at, slot_for) (rw above refl)

  slot_for_below :
      (xs : List ℕ) (i : ℕ) {x : ℕ}
      → get_elem? xs i ≡ some x
      → leb_ℤ k (key x) ≡ false
      → slot_for key xs k (suc i) ≡ suc i
  unfolding slot_for
  slot_for_below xs i at below = rw (at, slot_for) (rw below refl)

  slot_for-parts :
      (xs : List ℕ) (i : ℕ)
      → IsSorted key xs
      → i ≤ length xs
      → All (λ y. k ≤ℤ key y) (drop i xs)
      → All (λ y. key y <ℤ k) (take (slot_for key xs k i) xs)
        × All (λ y. k ≤ℤ key y) (drop (slot_for key xs k i) xs)
  slot_for-parts xs zero s le h = unfold slot_for in (tt, h)
  slot_for-parts xs (suc i) s le h =
      let (x, at) = at_hand xs i (omega arith) in
      elim (Bool-cases (leb_ℤ k (key x))) [
        | inl above ↦
            rw (slot_for_above xs i at above)
              (slot_for-parts xs i s (omega arith) (rw (drop-cons xs i at) (leb→le _ _ above, h)))
        | inr below ↦ rw (slot_for_below xs i at below) (take-below xs i s at (ground arith), h)
      ]

drop_all : (xs : List ℕ) → drop (length xs) xs ≡ []
drop_all [] = refl
drop_all (x ∷ xs) = drop_all xs

take-drop : (i : ℕ) (xs : List ℕ) → take i xs ++ drop i xs ≡ xs
take-drop zero xs = refl
take-drop (suc i) [] = refl
take-drop (suc i) (x ∷ xs) = ap (λ ys. x ∷ ys) (take-drop i xs)

-- Of a store whose blocks are in order of height, `Rollback` keeps in the slice exactly the blocks
-- below the height, in their order, and it takes the later ones from it, whatever it returns.
pub rollback_blocks :
    (unknown height : ℤ) (s : Store)
    → IsSorted (height_of s.collections) s.blocks
    → let s' = (rollback unknown height s).1 in
      (detached : List CollectionRef) × (s'.blocks ++ detached ≡ s.blocks)
      × All (λ c. height_of s'.collections c <ℤ height) s'.blocks
      × All (λ c. height ≤ℤ height_of s'.collections c) detached
unfolding rollback
rollback_blocks unknown height s sorted =
    let key = height_of s.collections in
    let n = length s.blocks in
    let i = slot_for key s.blocks height n in
    let same =
      Keeps.same (each-Keeps (detach_block unknown) (drop i s.blocks) (detach_block-Keeps unknown))
        (record s { blocks = take i s.blocks }) in
    let parts =
      slot_for-parts key height s.blocks n sorted (omega arith) (rw (drop_all s.blocks) tt) in
    subst
      (λ v.
        (detached : List CollectionRef) × (v.1 ++ detached ≡ s.blocks)
        × All (λ c. height_of v.0 c <ℤ height) v.1
        × All (λ c. height ≤ℤ height_of v.0 c) detached)
      (sym same) (drop i s.blocks, take-drop i s.blocks, parts.0, parts.1)
