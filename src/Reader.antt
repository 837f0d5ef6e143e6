-- ===== src/Reader.antt =====
-- Reading from an io.Reader: a reader takes the bytes that are left, and gives its result, the
-- number of bytes that it reports as read (Go's n64), and the bytes that it leaves.
pub mod Laws
use btcwallet.Prelude.{
  ℕ, zero, suc, ◌+◌, ◌^◌, ◌<◌, ◌≡◌, refl, ◌≢◌, List, [], ◌∷◌, ◌++◌, arith, leb, ◌==◌, if◌then◌else◌,
  length, take, drop,
}
use btcwallet.Errors.{Error, Result, ok, err, panic, eof, unexpected_eof}
use btcwallet.Bytes.{get_uint}

abbrev pub Reader : Type 0 → Type 0
Reader A = List ℕ → Result A × ℕ × List ℕ

unfoldable pub pure : {A : Type 0} → A → Reader A
pure a s = (ok a, 0, s)

-- A result that takes no bytes.
unfoldable pub lift : {A : Type 0} → Result A → Reader A
lift r s = (r, 0, s)

-- `n64 += tmpn64`, and a return as soon as there is an error.
unfoldable pub continue_with :
    {A B : Type 0} → Result A × ℕ × List ℕ → (A → Reader B) → Result B × ℕ × List ℕ
continue_with (ok a, n, rest) f = let (r, n', rest') = f a rest in (r, n + n', rest')
continue_with (err e, n, rest) f = (err e, n, rest)
continue_with (panic, n, rest) f = (panic, n, rest)

infixl 5 ◌>>=◌
unfoldable pub ◌>>=◌ : {A B : Type 0} → Reader A → (A → Reader B) → Reader B
unfolding continue_with
◌>>=◌ m f s = continue_with (m s) f

-- `io.ReadFull` into a buffer of `k` bytes.
unfoldable pub read_full : ℕ → Reader (List ℕ)
read_full k s =
    if leb k (length s)
    then (ok (take k s), k, drop k s)
    else (err (if length s == 0 then eof else unexpected_eof), length s, [])

-- `byteOrder.Uint32` and the like, of a buffer that `io.ReadFull` filled.
unfoldable pub read_uint : ℕ → Reader ℕ
read_uint w = do bs ← read_full w; pure (get_uint bs)

abbrev pub no_eof_error : Error → Error
no_eof_error eof = unexpected_eof
no_eof_error e = e

abbrev pub no_eof : {A : Type 0} → Result A → Result A
no_eof (ok a) = ok a
no_eof (err e) = err (no_eof_error e)
no_eof panic = panic

-- `if err == io.EOF { err = io.ErrUnexpectedEOF }`, after every read but a value's first.
unfoldable pub mid : {A : Type 0} → Reader A → Reader A
mid m s = let (r, n, rest) = m s in (no_eof r, n, rest)

-- A loop that reads `n` values and appends each to a slice.
unfoldable pub read_list : {A : Type 0} → ℕ → Reader A → Reader (List A)
read_list zero r = pure []
read_list (suc n) r = do x ← mid r; xs ← read_list n r; pure (x ∷ xs)

-- A loop that writes each value of a slice.
unfoldable pub write_list : {A : Type 0} → (A → List ℕ) → List A → List ℕ
write_list f [] = []
write_list f (x ∷ xs) = f x ++ write_list f xs

-- A loop that reads `n` values, and passes an error on as it is.
unfoldable pub read_times : {A : Type 0} → ℕ → Reader A → Reader (List A)
read_times zero r = pure []
read_times (suc n) r = do x ← r; xs ← read_times n r; pure (x ∷ xs)

abbrev pub with_count : {A : Type 0} → Result A → ℕ → Result (A × ℕ)
with_count (ok a) n = ok (a, n)
with_count (err e) n = err e
with_count panic n = panic

-- What a reader gives, with the count of bytes that it reports.
unfoldable pub measure : {A : Type 0} → Reader A → Reader (A × ℕ)
measure m s = let (r, n, rest) = m s in (with_count r n, n, rest)
