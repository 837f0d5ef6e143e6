-- ===== src/DiskSync/Files/Names.antt =====
-- The names of account files (accountFilename of disksync.go) are apart.
use btcwallet.Prelude.{
  ℕ, ◌≡◌, ◌≢◌, refl, sym, ap, ◌∙◌, Option, some, [], ◌∷◌, ◌++◌, arith, get_elem?, length,
  length-append, ◌<◌, All, All-append,
}
use btcwallet.DiskSync.Os.{FilePath, Os, FileSystem}
use btcwallet.DiskSync.Files.{file_name, wallet_bin, tx_bin}
use mathlib.Core.List.{reverse, reverse-append, append_assoc, append_cancel_right}

file_name_suffix :
    (suffix name : FilePath) → (front : FilePath) × (file_name suffix name ≡ front ++ suffix)
unfolding file_name
file_name_suffix suffix [] = ([], refl)
file_name_suffix suffix (c ∷ cs) =
    ((c ∷ cs) ++ (b'-' ∷ []), sym (append_assoc (c ∷ cs) (b'-' ∷ []) suffix))

pub wallet-ne-tx : (a b : FilePath) → file_name wallet_bin a ≢ file_name tx_bin b
wallet-ne-tx a b same =
    let (p, ep) = file_name_suffix wallet_bin a in
    let (q, eq) = file_name_suffix tx_bin b in
    let ends : reverse (p ++ wallet_bin) ≡ reverse (q ++ tx_bin) =
      ap reverse (sym ep ∙ same ∙ eq) in
    let shown : reverse wallet_bin ++ reverse p ≡ reverse tx_bin ++ reverse q =
      sym (reverse-append p wallet_bin) ∙ ends ∙ reverse-append q tx_bin in
    let fifth : ◌≡◌ {A = Option ℕ} (some b't') (some b'x') = ap (λ l. get_elem? l 4) shown in
    absurd (ground arith)

pub file_name-injective : (suffix a b : FilePath) → file_name suffix a ≡ file_name suffix b → a ≡ b
unfolding file_name
file_name-injective suffix [] [] same = refl
file_name-injective suffix [] (c ∷ cs) same =
    absurd (omega (arith, ap length same, length-append {0} (c ∷ cs) (b'-' ∷ suffix)))
file_name-injective suffix (c ∷ cs) [] same =
    absurd (omega (arith, ap length same, length-append {0} (c ∷ cs) (b'-' ∷ suffix)))
file_name-injective suffix (c ∷ cs) (k ∷ ks) same =
    append_cancel_right (c ∷ cs) (k ∷ ks) (b'-' ∷ suffix) same

-- A part of a name has no separator.
abbrev pub HasNoSeparator : FilePath → Type 0
HasNoSeparator name = All (λ c. (c ≢ b'/') × (c ≢ b'\\') × (c ≢ b':')) name

-- A name of a file, and not "." or "..".
abbrev pub IsPlain : FilePath → Type 0
IsPlain name = HasNoSeparator name × (2 < length name)

wallet_bin-HasNoSeparator : HasNoSeparator wallet_bin
wallet_bin-HasNoSeparator = ground arith

tx_bin-HasNoSeparator : HasNoSeparator tx_bin
tx_bin-HasNoSeparator = ground arith

file_name-HasNoSeparator :
    (suffix name : FilePath)
    → HasNoSeparator suffix
    → HasNoSeparator name
    → HasNoSeparator (file_name suffix name)
unfolding file_name
file_name-HasNoSeparator suffix [] h g = h
file_name-HasNoSeparator suffix (c ∷ cs) h g = All-append _ (c ∷ cs) (b'-' ∷ suffix) g (
  (
    (λ e. absurd (omega (arith, e))),
    (λ e. absurd (omega (arith, e))),
    (λ e. absurd (omega (arith, e))),
  ),
  h,
)

file_name-length : (suffix name : FilePath) → 2 < length suffix → 2 < length (file_name suffix name)
unfolding file_name
file_name-length suffix [] h = h
file_name-length suffix (c ∷ cs) h = omega (arith, length-append {0} (c ∷ cs) (b'-' ∷ suffix))

pub wallet-IsPlain : (name : FilePath) → HasNoSeparator name → IsPlain (file_name wallet_bin name)
wallet-IsPlain name g = (
  file_name-HasNoSeparator wallet_bin name wallet_bin-HasNoSeparator g,
  file_name-length wallet_bin name (omega arith),
)

pub tx-IsPlain : (name : FilePath) → HasNoSeparator name → IsPlain (file_name tx_bin name)
tx-IsPlain name g = (
  file_name-HasNoSeparator tx_bin name tx_bin-HasNoSeparator g,
  file_name-length tx_bin name (omega arith),
)

-- A directory in which different names are of different files.
abbrev pub IsDirectory : (os : Os) → FileSystem os → FilePath → Type 0
IsDirectory os fs dir =
    (m n : FilePath)
    → IsPlain m
    → IsPlain n
    → fs.place (os.join dir m) ≡ fs.place (os.join dir n)
    → m ≡ n
