-- ===== src/Keystore/Entries.antt =====
-- The entries that stand at the end of a key store file, and `varEntries`, which reads them until
-- the end of the file.
pub mod Termination
pub mod RoundTrip
use btcwallet.Prelude.{
  ℕ, zero, suc, ◌+◌, ◌%◌, Bool, true, false, Option, none, some, List, [], ◌∷◌, ◌++◌, length, ltb,
  ◌==◌, if◌then◌else◌,
}
use btcwallet.Errors.{
  Error, Result, ok, err, panic, keystore, malformed_entry, unknown_entry_header, eof,
}
use btcwallet.Bytes.{put_uint}
use btcwallet.Reader.{Reader, pure, lift, ◌>>=◌, continue_with, read_full, read_uint}
use btcwallet.Keystore.Address.{Bytes, Crypto, BtcAddress, ScriptAddress}
use btcwallet.Keystore.Codec.Addresses.{
  read_address, write_address, read_script_address, write_script_address,
}

pub data Entry : Type 0 where
  addr_entry : Bytes → BtcAddress → Entry
  script_entry : Bytes → ScriptAddress → Entry
  addr_comment_entry : Bytes → Bytes → Entry
  tx_comment_entry : Bytes → Bytes → Entry

-- The headers.
abbrev pub addr_comment_header : ℕ
addr_comment_header = 1

abbrev pub tx_comment_header : ℕ
tx_comment_header = 2

abbrev pub deleted_header : ℕ
deleted_header = 4

abbrev pub script_header : ℕ
script_header = 8

abbrev pub addr_header : ℕ
addr_header = 0

abbrev pub max_comment_len : ℕ
max_comment_len = 65535

-- A header and bytes before those that another call writes.
abbrev pub after_bytes : Bytes → Result Bytes → Result Bytes
after_bytes bs (ok more) = ok (bs ++ more)
after_bytes bs (err e) = err e
after_bytes bs panic = panic

abbrev pub write_comment : Bytes → Bytes → Result Bytes
write_comment before comment =
    if ltb max_comment_len (length comment)
    then err (keystore malformed_entry)
    else ok (before ++ (put_uint 2 (length comment % 65536) ++ comment))

-- The entries' `WriteTo`. That of a transaction's comment leaves out its hash, as the code does.
unfoldable pub write_entry : Crypto → Entry → Result Bytes
write_entry c (addr_entry hash a) = after_bytes (addr_header ∷ hash) (write_address c a)
write_entry c (script_entry hash a) = ok ((script_header ∷ hash) ++ write_script_address c a)
write_entry c (addr_comment_entry hash comment) = write_comment (addr_comment_header ∷ hash) comment
write_entry c (tx_comment_entry hash comment) = write_comment (tx_comment_header ∷ []) comment

abbrev pub join_bytes : Result Bytes → Result Bytes → Result Bytes
join_bytes (ok bytes) rest = after_bytes bytes rest
join_bytes (err e) rest = err e
join_bytes panic rest = panic

-- `varEntries.WriteTo`
unfoldable pub write_entries : Crypto → List Entry → Result Bytes
unfolding write_entry
write_entries c [] = ok []
write_entries c (e ∷ es) = join_bytes (write_entry c e) (write_entries c es)

-- The entries' `ReadFrom`.
unfoldable pub read_addr_entry : Crypto → Reader (Option Entry)
read_addr_entry c = do hash ← read_full 20; a ← read_address c; pure (some (addr_entry hash a))

unfoldable pub read_script_entry : Crypto → Reader (Option Entry)
read_script_entry c = do
  hash ← read_full 20
  a ← read_script_address c
  pure (some (script_entry hash a))

unfoldable pub read_comment : ℕ → (Bytes → Bytes → Entry) → Reader (Option Entry)
read_comment hash_length make = do
  hash ← read_full hash_length
  n ← read_uint 2
  comment ← read_full n
  pure (some (make hash comment))

-- A deleted entry is not kept.
unfoldable pub read_deleted_entry : Reader (Option Entry)
read_deleted_entry = do n ← read_uint 2; unused ← read_full n; pure none

-- The entry behind a header.
unfoldable pub read_entry : Crypto → ℕ → Reader (Option Entry)
unfolding read_addr_entry read_script_entry read_comment read_deleted_entry
read_entry c header =
    if header == addr_header
    then read_addr_entry c
    else if header == script_header
    then read_script_entry c
    else if header == addr_comment_header
    then read_comment 20 addr_comment_entry
    else if header == tx_comment_header
    then read_comment 32 tx_comment_entry
    else if header == deleted_header
    then read_deleted_entry
    else lift (err (keystore unknown_entry_header))

-- What is left to read after a step of the loop, which the fuel bounds: `none` means that the
-- fuel ran out.
abbrev pub Outcome : Type 0
Outcome = Option (Result (List Entry) × Bytes)

abbrev pub append_entry : Option Entry → Outcome → Outcome
append_entry none r = r
append_entry (some e) none = none
append_entry (some e) (some (ok es, rest)) = some (ok (e ∷ es), rest)
append_entry (some e) (some (err x, rest)) = some (err x, rest)
append_entry (some e) (some (panic, rest)) = some (panic, rest)

-- What an entry, or an error where one should stand, makes of what the rest of the bytes gives.
abbrev pub after_entry : Result (Option Entry) → Bytes → Outcome → Outcome
after_entry (ok e) rest later = append_entry e later
after_entry (err x) rest later = some (err x, rest)
after_entry panic rest later = some (panic, rest)

-- `varEntries.ReadFrom`: the end of the file where a header would stand is no error. The entries that
-- were read before an error are left out.
unfoldable pub read_entries : Crypto → ℕ → Bytes → Outcome
unfolding read_entry
read_entries c zero s = none
read_entries c (suc fuel) [] = some (ok [], [])
read_entries c (suc fuel) (header ∷ s) =
    let (e, n, rest) = read_entry c header s in
    let later = read_entries c fuel rest in after_entry e rest later
