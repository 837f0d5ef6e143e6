-- ===== src/Prelude/Int.antt =====
-- Signed integers over the native numbers, and Go's fixed-width conversions of them.
use Prim.Native.Nat.{ℕ, suc, ◌+◌, ◌-◌, ◌*◌, ◌/◌, ◌%◌, ◌≤◌, ◌<◌}
use mathlib.Core.Path.{◌≡◌}
use mathlib.Core.Logic.{◌↔◌}
use mathlib.Core.Bool.{Bool, true}
use native.Mathlib.Omega.{arith}
use btcwallet.Prelude.Map.{Eq}
use btcwallet.Prelude.Tests.{ltb, leb, ◌==◌, if◌then◌else◌}

-- `negsuc n` is -(n + 1).
pub data ℤ : Type 0 where
  pos : ℕ → ℤ
  negsuc : ℕ → ℤ

abbrev pub pos_part : ℤ → ℕ
pos_part (pos n) = n
pos_part (negsuc n) = 0

abbrev pub neg_part : ℤ → ℕ
neg_part (pos n) = 0
neg_part (negsuc n) = suc n

-- a - b, as an integer.
abbrev pub sub_ℕ : ℕ → ℕ → ℤ
sub_ℕ a b = if leb b a then pos (a - b) else negsuc (b - a - 1)

abbrev pub minus_one : ℤ
minus_one = negsuc 0

infixl 65 ◌+ℤ◌ ◌-ℤ◌
infixl 70 ◌*ℤ◌
infix 50 ◌≤ℤ◌ ◌<ℤ◌
unfoldable pub ◌+ℤ◌ : ℤ → ℤ → ℤ
a +ℤ b = sub_ℕ (pos_part a + pos_part b) (neg_part a + neg_part b)

unfoldable pub ◌-ℤ◌ : ℤ → ℤ → ℤ
a -ℤ b = sub_ℕ (pos_part a + neg_part b) (neg_part a + pos_part b)

unfoldable pub ◌*ℤ◌ : ℤ → ℤ → ℤ
a *ℤ b =
    sub_ℕ (pos_part a * pos_part b + neg_part a * neg_part b)
      (pos_part a * neg_part b + neg_part a * pos_part b)

abbrev pub ◌≤ℤ◌ : ℤ → ℤ → Type 0
a ≤ℤ b = pos_part a + neg_part b ≤ pos_part b + neg_part a

abbrev pub ◌<ℤ◌ : ℤ → ℤ → Type 0
a <ℤ b = pos_part a + neg_part b < pos_part b + neg_part a

abbrev pub ltb_ℤ : ℤ → ℤ → Bool
ltb_ℤ a b = ltb (pos_part a + neg_part b) (pos_part b + neg_part a)

abbrev pub leb_ℤ : ℤ → ℤ → Bool
leb_ℤ a b = leb (pos_part a + neg_part b) (pos_part b + neg_part a)

abbrev pub eqb_ℤ : ℤ → ℤ → Bool
eqb_ℤ a b = pos_part a + neg_part b == pos_part b + neg_part a

pub +ℤ_parts :
    (a b : ℤ)
    → pos_part (a +ℤ b) + neg_part a + neg_part b ≡ neg_part (a +ℤ b) + pos_part a + pos_part b
unfolding ◌+ℤ◌
+ℤ_parts a b = ground arith

pub -ℤ_parts :
    (a b : ℤ)
    → pos_part (a -ℤ b) + neg_part a + pos_part b ≡ neg_part (a -ℤ b) + pos_part a + neg_part b
unfolding ◌-ℤ◌
-ℤ_parts a b = ground arith

pub eq_of_parts : (a b : ℤ) → pos_part a + neg_part b ≡ pos_part b + neg_part a → a ≡ b
eq_of_parts a b h = ground arith

pub eqb_ℤ_iff : (a b : ℤ) → (eqb_ℤ a b ≡ true) ↔ (a ≡ b)
eqb_ℤ_iff a b = ground arith

instance abbrev pub int_eq : Eq ℤ
int_eq = record { beq = eqb_ℤ; beq_iff = eqb_ℤ_iff }

pub ruleset int_laws = (arith, +ℤ_parts, -ℤ_parts, eq_of_parts)

-- `uint32(x)` and `uint64(x)`: the bit pattern of `x` in a word with `m` patterns.
unfoldable pub to_unsigned : ℕ → ℤ → ℕ
to_unsigned m (pos n) = n % m
to_unsigned m (negsuc n) = m - 1 - n % m

-- `int32(n)` and `int64(n)` of a pattern: the upper half stands for negative numbers.
unfoldable pub to_signed : ℕ → ℕ → ℤ
to_signed m n = if ltb n (m / 2) then pos n else negsuc (m - 1 - n)

abbrev pub two_32 : ℕ
two_32 = 4294967296

abbrev pub two_64 : ℕ
two_64 = 18446744073709551616

-- What an int32 and an int64 can hold.
abbrev pub IsInt32 : ℤ → Type 0
IsInt32 z = (pos_part z < 2147483648) × (neg_part z ≤ 2147483648)

abbrev pub IsInt64 : ℤ → Type 0
IsInt64 z = (pos_part z < 9223372036854775808) × (neg_part z ≤ 9223372036854775808)

-- The result of int32 and int64 arithmetic, which wraps around.
unfoldable pub wrap32 : ℤ → ℤ
unfolding to_unsigned to_signed
wrap32 z = to_signed two_32 (to_unsigned two_32 z)

unfoldable pub wrap64 : ℤ → ℤ
unfolding to_unsigned to_signed
wrap64 z = to_signed two_64 (to_unsigned two_64 z)

pub to_unsigned_lt32 : (z : ℤ) → to_unsigned two_32 z < two_32
unfolding to_unsigned
to_unsigned_lt32 (pos n) = omega arith
to_unsigned_lt32 (negsuc n) = omega arith

pub to_unsigned_lt64 : (z : ℤ) → to_unsigned two_64 z < two_64
unfolding to_unsigned
to_unsigned_lt64 (pos n) = omega arith
to_unsigned_lt64 (negsuc n) = omega arith

pub wrap32_lem : (z : ℤ) → IsInt32 z → to_signed two_32 (to_unsigned two_32 z) ≡ z
unfolding to_unsigned to_signed
wrap32_lem (pos n) h = ground arith
wrap32_lem (negsuc n) h = ground arith

pub wrap64_lem : (z : ℤ) → IsInt64 z → to_signed two_64 (to_unsigned two_64 z) ≡ z
unfolding to_unsigned to_signed
wrap64_lem (pos n) h = ground arith
wrap64_lem (negsuc n) h = ground arith

pub wrap32_self : (z : ℤ) → IsInt32 z → wrap32 z ≡ z
unfolding wrap32
wrap32_self z h = wrap32_lem z h

pub wrap64_self : (z : ℤ) → IsInt64 z → wrap64 z ≡ z
unfolding wrap64
wrap64_self z h = wrap64_lem z h

pub wrap64-IsInt64 : (z : ℤ) → IsInt64 (wrap64 z)
unfolding wrap64
wrap64-IsInt64 (pos n) = ground arith
wrap64-IsInt64 (negsuc n) = ground arith

pub wrap64_nonneg : (z : ℤ) → pos 0 ≤ℤ z → pos_part z < 9223372036854775808 → wrap64 z ≡ z
wrap64_nonneg z h k = wrap64_self z (k, omega arith)

pub nonneg_parts : (z : ℤ) → pos 0 ≤ℤ z → neg_part z ≡ 0
nonneg_parts z h = ground arith

pub wrap32_nonneg : (z : ℤ) → pos 0 ≤ℤ z → pos_part z < 2147483648 → wrap32 z ≡ z
wrap32_nonneg z h k = wrap32_self z (k, omega arith)
