-- ===== src/Keystore/BigInt.antt =====
-- Numbers as bytes: `pad` of keystore.go, and what it uses of math/big.
use btcwallet.Prelude.{
  ℕ, zero, suc, ◌+◌, ◌-◌, ◌*◌, ◌/◌, ◌%◌, ◌^◌, ◌<◌, ◌≤◌, ◌≡◌, refl, sym, ap, ◌∙◌, inl, inr,
  Bool-cases, length-append, length-replicate, [], ◌∷◌, ◌++◌, length, arith, ltb, ◌==◌,
  if◌then◌else◌,
}
use native.Mathlib.Nat.{pow-suc}
use btcwallet.Keystore.Address.{Bytes, zeros}

-- `big.Int.SetBytes`, the highest byte first; `from` is the value of the bytes before.
unfoldable pub set_bytes : ℕ → Bytes → ℕ
set_bytes from [] = from
set_bytes from (b ∷ bs) = set_bytes (256 * from + b) bs

-- `big.Int.Bytes`: the fuel bounds the number of bytes, and those of a number below the curve's order
-- are at most 32.
unfoldable pub big_bytes : ℕ → ℕ → Bytes
big_bytes zero n = []
big_bytes (suc fuel) n =
    let higher = big_bytes fuel (n / 256) in if n == 0 then [] else higher ++ (n % 256 ∷ [])

-- `pad`
unfoldable pub pad : ℕ → Bytes → Bytes
pad size b = zeros ((if ltb size (length b) then length b else size) - length b) ++ b

-- The number that bytes write, the highest byte first.
unfoldable pub big_endian : Bytes → ℕ
big_endian [] = 0
big_endian (b ∷ bs) = b * 256 ^ length bs + big_endian bs

regroup : (f b p r : ℕ) → (256 * f + b) * p + r ≡ f * (p * 256) + (b * p + r)
regroup f b p r = grind arith

set_bytes_lem : (from : ℕ) (bs : Bytes) → set_bytes from bs ≡ from * 256 ^ length bs + big_endian bs
unfolding set_bytes big_endian
set_bytes_lem from [] = omega arith
set_bytes_lem from (b ∷ bs) =
    set_bytes_lem (256 * from + b) bs
    ∙ regroup from b (256 ^ length bs) (big_endian bs)
    ∙ ap (λ p. from * p + (b * 256 ^ length bs + big_endian bs)) (sym (pow-suc 256 (length bs)))

pub set_bytes_zero : (bs : Bytes) → set_bytes 0 bs ≡ big_endian bs
set_bytes_zero bs = omega (arith, set_bytes_lem 0 bs)

last_byte : (x p r y : ℕ) → x * (p * 256) + (256 * r + y) ≡ 256 * (x * p + r) + y
last_byte x p r y = grind arith

big_endian-append : (xs : Bytes) (y : ℕ) → big_endian (xs ++ (y ∷ [])) ≡ 256 * big_endian xs + y
unfolding big_endian
big_endian-append [] y = omega arith
big_endian-append (x ∷ xs) y =
    let longer : 256 ^ length (xs ++ (y ∷ [])) ≡ 256 ^ length xs * 256 =
      ap (λ n. 256 ^ n) (omega (arith, length-append {0} xs (y ∷ []))) ∙ pow-suc 256 (length xs) in
    rw (longer, big_endian-append xs y) (last_byte x (256 ^ length xs) (big_endian xs) y)

-- A number that fits the bytes is written by them.
pub big_endian-big_bytes : (fuel n : ℕ) → n < 256 ^ fuel → big_endian (big_bytes fuel n) ≡ n
unfolding big_bytes big_endian
big_endian-big_bytes zero n h = omega arith
big_endian-big_bytes (suc fuel) n h = elim (Bool-cases (n == 0)) [
  | inl none_left ↦ rw (none_left, big_bytes) (ground arith)
  | inr more ↦
      let fits : n / 256 < 256 ^ fuel = omega (arith, h, pow-suc 256 fuel) in
      rw (more, big_bytes)
        (omega (
          arith,
          big_endian-append (big_bytes fuel (n / 256)) (n % 256),
          big_endian-big_bytes fuel (n / 256) fits,
        ))
]

big_endian-zeros : (m : ℕ) (bs : Bytes) → big_endian (zeros m ++ bs) ≡ big_endian bs
unfolding big_endian
big_endian-zeros zero bs = refl
big_endian-zeros (suc m) bs = omega (arith, big_endian-zeros m bs)

pub big_endian-pad : (size : ℕ) (bs : Bytes) → big_endian (pad size bs) ≡ big_endian bs
unfolding pad
big_endian-pad size bs = big_endian-zeros _ bs

pub length-big_bytes : (fuel n : ℕ) → length (big_bytes fuel n) ≤ fuel
unfolding big_bytes
length-big_bytes zero n = omega arith
length-big_bytes (suc fuel) n = elim (Bool-cases (n == 0)) [
  | inl none_left ↦ rw (none_left, big_bytes) (omega arith)
  | inr more ↦
      rw (more, big_bytes)
        (omega (
          arith,
          length-append {0} (big_bytes fuel (n / 256)) (n % 256 ∷ []),
          length-big_bytes fuel (n / 256),
        ))
]

pub length-pad : (size : ℕ) (bs : Bytes) → length bs ≤ size → length (pad size bs) ≡ size
unfolding pad
length-pad size bs h =
    let same : (if ltb size (length bs) then length bs else size) ≡ size = ground arith in
    rw same (
      omega (
        arith,
        length-append {0} (zeros (size - length bs)) bs,
        length-replicate {0} {A = ℕ} (size - length bs) 0,
      ))

pub mod_below : (n order : ℕ) → 0 < order → order ≤ 256 ^ 32 → n % order < 256 ^ 32
mod_below n order positive fits = grind arith
