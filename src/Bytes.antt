-- ===== src/Bytes.antt =====
-- byteOrder.PutUint32 and the like (encoding/binary, little-endian): a word in `w` bytes.
use btcwallet.Prelude.{
  ℕ, zero, suc, ◌+◌, ◌*◌, ◌/◌, ◌%◌, ◌^◌, ◌<◌, ◌≡◌, refl, List, [], ◌∷◌, arith, length, All,
}
use native.Mathlib.Nat.{pow-suc}

unfoldable pub put_uint : ℕ → ℕ → List ℕ
put_uint zero n = []
put_uint (suc w) n = (n % 256) ∷ put_uint w (n / 256)

unfoldable pub get_uint : List ℕ → ℕ
get_uint [] = 0
get_uint (b ∷ bs) = b + 256 * get_uint bs

pub length-put_uint : (w n : ℕ) → length (put_uint w n) ≡ w
unfolding put_uint
length-put_uint zero n = refl
length-put_uint (suc w) n = omega (arith, length-put_uint w (n / 256))

div-lt-pow : (w n : ℕ) → n < 256 ^ suc w → n / 256 < 256 ^ w
div-lt-pow w n h = omega (arith, pow-suc 256 w)

-- A word that fits its width is read back.
pub get_uint-put_uint : (w n : ℕ) → n < 256 ^ w → get_uint (put_uint w n) ≡ n
unfolding put_uint get_uint
get_uint-put_uint zero n h = omega arith
get_uint-put_uint (suc w) n h = omega (arith, get_uint-put_uint w (n / 256) (div-lt-pow w n h))

-- What is read from `w` bytes fits `w` bytes.
pub get_uint-lt : (bs : List ℕ) → All (λ b. b < 256) bs → get_uint bs < 256 ^ length bs
unfolding get_uint
get_uint-lt [] h = omega arith
get_uint-lt (b ∷ bs) (hb, hbs) = omega (arith, pow-suc 256 (length bs), get_uint-lt bs hbs)

pub put_uint-All : (w n : ℕ) → All (λ b. b < 256) (put_uint w n)
unfolding put_uint
put_uint-All zero n = tt
put_uint-All (suc w) n = (omega arith, put_uint-All w (n / 256))
