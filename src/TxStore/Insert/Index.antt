-- ===== src/TxStore/Insert/Index.antt =====
-- Slices sorted by a key, with the map from keys to slice indexes that the store keeps beside them.
use mathlib.Core.Path.{subst}
use btcwallet.Prelude.{
  ℕ, zero, suc, ◌≡◌, ◌≢◌, refl, ◌∙◌, inl, inr, false, Option, none, some, List, [], ◌∷◌, ◌++◌,
  arith, All, All-append, get_elem?, take, drop, length, Bool-cases, Option-cases, if◌then◌else◌,
}
use btcwallet.Prelude.Int.{ℤ, eqb_ℤ, eqb_ℤ_iff, ◌<ℤ◌, ◌≤ℤ◌}
use btcwallet.Prelude.Map.{Map, lookup, insert, lookup-insert, lookup-insert_ne}
use btcwallet.TxStore.Types.{int_eq}
use btcwallet.TxStore.Insert.{last_exceeds, renumber, insert_before}

-- The index of the element with a key.
unfoldable pub find_index : (ℕ → ℤ) → ℤ → List ℕ → Option ℕ
find_index key k [] = none
find_index key k (x ∷ xs) =
    let rest = find_index key k xs in
    if eqb_ℤ (key x) k then some 0 else elim rest [ none ↦ none | some i ↦ some (suc i) ]

abbrev pub IsSorted : (ℕ → ℤ) → List ℕ → Type 0
IsSorted key [] = Unit
IsSorted key (x ∷ xs) = All (λ y. key x <ℤ key y) xs × IsSorted key xs

-- The map has the index of every key of the slice, and no other key.
abbrev pub IsExact : (ℕ → ℤ) → List ℕ → Map ℤ ℕ → Type 0
IsExact key xs m = (k : ℤ) → lookup k m ≡ find_index key k xs

pub All-get {ℓ} :
    (P : ℕ → Type ℓ) (xs : List ℕ) (i y : ℕ) → All P xs → get_elem? xs i ≡ some y → P y
All-get P [] i y h e = absurd (cc)
All-get P (x ∷ xs) zero y h e = let p : x ≡ y = cc in subst P p h.0
All-get P (x ∷ xs) (suc i) y h e = All-get P xs i y h.1 e

get_elem?-take_append :
    (xs : List ℕ) (i y : ℕ) (ys : List ℕ)
    → get_elem? xs i ≡ some y
    → (get_elem? (take i xs ++ ys) i ≡ get_elem? ys 0)
      × (get_elem? (take i xs ++ ys) (suc i) ≡ get_elem? ys 1)
get_elem?-take_append [] i y ys e = absurd (cc)
get_elem?-take_append (x ∷ xs) zero y ys e = (refl, refl)
get_elem?-take_append (x ∷ xs) (suc i) y ys e = get_elem?-take_append xs i y ys e

module _ (key : ℕ → ℤ) where
  find_index-append :
      (k : ℤ) (xs : List ℕ) (x : ℕ)
      → find_index key k (xs ++ (x ∷ [])) ≡ elim (find_index key k xs) [
        | some i ↦ some i
        | none ↦ if eqb_ℤ (key x) k then some (length xs) else none
      ]
  unfolding find_index
  find_index-append k [] x = ground arith
  find_index-append k (y ∷ xs) x = ground (arith, find_index-append k xs x)

  -- A new key at the end, under the slice's length, leaves the map exact.
  pub append-IsExact :
      (x : ℕ) (xs : List ℕ) (m : Map ℤ ℕ)
      → IsExact key xs m
      → find_index key (key x) xs ≡ none
      → IsExact key (xs ++ (x ∷ [])) (insert (key x) (length xs) m)
  append-IsExact x xs m h new k = ground (
    arith,
    find_index-append k xs x,
    lookup-insert (key x) k (length xs) m,
    h k,
    eqb_ℤ_iff (key x) k,
  )

  above_none : (k : ℤ) (xs : List ℕ) → All (λ y. k <ℤ key y) xs → find_index key k xs ≡ none
  unfolding find_index
  above_none k [] h = refl
  above_none k (y ∷ xs) h = ground (arith, above_none k xs h.1)

  last_exceeds-below :
      (k : ℤ) (x : ℕ) (xs : List ℕ)
      → IsSorted key (x ∷ xs)
      → last_exceeds key k (x ∷ xs) ≡ false
      → key x ≤ℤ k
  unfolding last_exceeds
  last_exceeds-below k x [] s h = ground arith
  last_exceeds-below k x (y ∷ xs) s h = ground (arith, last_exceeds-below k y xs s.1 h)

  last_exceeds-tail :
      (k : ℤ) (y : ℕ) (xs : List ℕ)
      → last_exceeds key k (y ∷ xs) ≡ false
      → last_exceeds key k xs ≡ false
  unfolding last_exceeds
  last_exceeds-tail k y [] h = refl
  last_exceeds-tail k y (z ∷ xs) h = h

  find_index-tail :
      (k : ℤ) (y : ℕ) (xs : List ℕ)
      → find_index key k (y ∷ xs) ≡ none
      → (find_index key k xs ≡ none) × (key y ≢ k)
  unfolding find_index
  find_index-tail k y xs h = (ground arith, λ e. absurd (ground (arith, eqb_ℤ_iff (key y) k)))

  strictly_below : (a b : ℤ) → a ≤ℤ b → a ≢ b → a <ℤ b
  strictly_below a b h ne = ground (arith, eqb_ℤ_iff a b)

  -- A new key that the last one does not exceed stands in order at the end.
  pub append-IsSorted :
      (x : ℕ) (xs : List ℕ)
      → IsSorted key xs
      → last_exceeds key (key x) xs ≡ false
      → find_index key (key x) xs ≡ none
      → IsSorted key (xs ++ (x ∷ []))
  append-IsSorted x [] s h new = (tt, tt)
  append-IsSorted x (y ∷ xs) s h new =
      let (new', ne) = find_index-tail (key x) y xs new in
      let lt = strictly_below (key y) (key x) (last_exceeds-below (key x) y xs s h) ne in
      (
        All-append (λ z. key y <ℤ key z) xs (x ∷ []) s.0 (lt, tt),
        append-IsSorted x xs s.1 (last_exceeds-tail (key x) y xs h) new',
      )

  pub lookup-renumber :
      (k : ℤ) (n : ℕ) (xs : List ℕ) (m : Map ℤ ℕ)
      → find_index key k xs ≡ none
      → lookup k (renumber key n xs m) ≡ lookup k m
  unfolding renumber
  lookup-renumber k n [] m h = refl
  lookup-renumber k n (x ∷ xs) m h =
      let (h', ne) = find_index-tail k x xs h in
      lookup-renumber k (suc n) xs (insert (key x) n m) h' ∙ lookup-insert_ne (key x) k n m ne

  pub get_elem?-find_index :
      (xs : List ℕ) (i y : ℕ)
      → IsSorted key xs
      → get_elem? xs i ≡ some y
      → (find_index key (key y) xs ≡ some i) × (find_index key (key y) (drop (suc i) xs) ≡ none)
  unfolding find_index
  get_elem?-find_index [] i y s h = absurd (cc)
  get_elem?-find_index (x ∷ xs) zero y s h = ground (arith, above_none (key x) xs s.0)
  get_elem?-find_index (x ∷ xs) (suc i) y s h =
      ground (arith, get_elem?-find_index xs i y s.1 h, All-get (λ z. key x <ℤ key z) xs i y s.0 h)

  find_index-cons :
      (k : ℤ) (x : ℕ) (xs : List ℕ)
      → key x ≢ k
      → find_index key k xs ≡ none
      → find_index key k (x ∷ xs) ≡ none
  unfolding find_index
  find_index-cons k x xs ne h = ground (arith, eqb_ℤ_iff (key x) k)

  -- Where `x` is put before the element `y` at `i`, the map still has `i` for the key of `y`, and
  -- `x` stands there, and once more behind.
  pub insert_before_displaces :
      (x y i : ℕ) (xs : List ℕ) (m : Map ℤ ℕ)
      → IsSorted key xs
      → IsExact key xs m
      → get_elem? xs i ≡ some y
      → key x ≢ key y
      → (lookup (key y) (insert_before key x i xs m).1 ≡ some i)
        × (get_elem? (insert_before key x i xs m).0 i ≡ some x)
        × (get_elem? (insert_before key x i xs m).0 (suc i) ≡ some x)
  unfolding insert_before
  insert_before_displaces x y i xs m s h e ne =
      let (found, later) = get_elem?-find_index xs i y s e in
      (
        lookup-renumber (key y) (suc i) (x ∷ drop (suc i) xs) (insert (key x) i m)
              (find_index-cons (key y) x (drop (suc i) xs) ne later)
            ∙ lookup-insert_ne (key x) (key y) i m ne
            ∙ h (key y)
            ∙ found,
        (get_elem?-take_append xs i y (x ∷ (x ∷ drop (suc i) xs)) e).0,
        (get_elem?-take_append xs i y (x ∷ (x ∷ drop (suc i) xs)) e).1,
      )

  -- An index that is found is that of an element with the key.
  pub find_index-get :
      (k : ℤ) (xs : List ℕ) (i : ℕ)
      → find_index key k xs ≡ some i
      → (x : ℕ) × (get_elem? xs i ≡ some x) × (key x ≡ k)
  unfolding find_index
  find_index-get k [] i h = absurd (cc)
  find_index-get k (x ∷ xs) i h = elim (Bool-cases (eqb_ℤ (key x) k)) [
    | inl same ↦ (x, ground arith, (eqb_ℤ_iff (key x) k).0 same)
    | inr other ↦ elim (Option-cases (find_index key k xs)) [
      | inl missing ↦ absurd (ground arith)
      | inr (j, found) ↦
          let (y, at, e) = find_index-get k xs j found in
          let here : i ≡ suc j = ground arith in (y, rw here at, e)
    ]
  ]
