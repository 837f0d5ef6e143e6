-- ===== src/Keystore/Version.antt =====
-- The version of a key store file, and its order.
pub mod Order
use btcwallet.Prelude.{
  ℕ, ◌+◌, ◌*◌, ◌%◌, Bool, true, false, List, [], ◌∷◌, ◌++◌, ltb, ◌==◌, if◌then◌else◌,
}
use btcwallet.Errors.{Result, ok, err, panic}
use btcwallet.Bytes.{put_uint}
use btcwallet.Reader.{Reader, pure, ◌>>=◌, read_full}

-- Each part is a byte.
pub record Version : Type 0 where
  pub major : ℕ
  pub minor : ℕ
  pub bugfix : ℕ
  pub autoincrement : ℕ

-- `Vers20LastBlocks` and `VersUnsetNeedsPrivkeyFlag`, which is also `VersCurrent`.
abbrev pub vers_20_last_blocks : Version
vers_20_last_blocks = record { major = 1; minor = 36; bugfix = 0; autoincrement = 0 }

abbrev pub vers_unset_needs_privkey_flag : Version
vers_unset_needs_privkey_flag = record { major = 1; minor = 36; bugfix = 1; autoincrement = 0 }

abbrev pub vers_current : Version
vers_current = vers_unset_needs_privkey_flag

-- `version.LT`
unfoldable pub lt : Version → Version → Bool
lt v w =
    if ltb v.major w.major
    then true
    else if ltb v.minor w.minor
    then true
    else if ltb v.bugfix w.bugfix
    then true
    else ltb v.autoincrement w.autoincrement

-- `version.EQ`
unfoldable pub eq : Version → Version → Bool
eq v w =
    if v.major == w.major
    then if v.minor == w.minor
      then if v.bugfix == w.bugfix then v.autoincrement == w.autoincrement else false
      else false
    else false

-- `version.GT`
unfoldable pub gt : Version → Version → Bool
gt v w =
    if ltb w.major v.major
    then true
    else if ltb w.minor v.minor
    then true
    else if ltb w.bugfix v.bugfix
    then true
    else ltb w.autoincrement v.autoincrement

-- The four bytes that `io.ReadFull` gives.
abbrev pub version_of : List ℕ → Version
version_of (major ∷ minor ∷ bugfix ∷ autoincrement ∷ []) = record {
  major = major;
  minor = minor;
  bugfix = bugfix;
  autoincrement = autoincrement;
}
version_of bytes = record { major = 0; minor = 0; bugfix = 0; autoincrement = 0 }

-- `version.ReadFrom` and `version.WriteTo`
unfoldable pub read_version : Reader Version
read_version = do bytes ← read_full 4; pure (version_of bytes)

unfoldable pub write_version : Version → List ℕ
write_version v = v.major ∷ v.minor ∷ v.bugfix ∷ v.autoincrement ∷ []
