-- ===== src/Keystore/Entries/Termination.antt =====
-- `varEntries.ReadFrom` ends: each step takes the byte of a header, and no reader puts bytes back.
use btcwallet.Prelude.{
  ℕ, zero, suc, ◌+◌, ◌<◌, ◌≡◌, refl, ◌≢◌, Bool, true, false, Option, none, some, [], ◌∷◌, length,
  arith, if◌then◌else◌,
}
use btcwallet.Errors.{Result, ok, err, panic}
use btcwallet.Reader.{Reader}
use btcwallet.Reader.Laws.{IsMeasured, measuring}
use btcwallet.Keystore.Address.{Bytes, Crypto}
use btcwallet.Keystore.Codec.{read_addr_flags, read_script_flags, read_script, read_public_key}
use btcwallet.Keystore.Codec.Addresses.{read_int32, read_int64, read_address, read_script_address}
use btcwallet.Keystore.Entries.{
  Entry, Outcome, append_entry, after_entry, read_addr_entry, read_script_entry, read_comment,
  read_deleted_entry, read_entry, read_entries,
}

read_int32-IsMeasured : IsMeasured read_int32
unfolding read_int32
read_int32-IsMeasured = search measuring

read_int64-IsMeasured : IsMeasured read_int64
unfolding read_int64
read_int64-IsMeasured = search measuring

read_addr_flags-IsMeasured : IsMeasured read_addr_flags
unfolding read_addr_flags
read_addr_flags-IsMeasured = search measuring

read_script_flags-IsMeasured : IsMeasured read_script_flags
unfolding read_script_flags
read_script_flags-IsMeasured = search measuring

read_script-IsMeasured : IsMeasured read_script
unfolding read_script
read_script-IsMeasured = search measuring

read_public_key-IsMeasured : IsMeasured read_public_key
unfolding read_public_key
read_public_key-IsMeasured = search measuring

ruleset parts = (
  read_int32-IsMeasured, read_int64-IsMeasured, read_addr_flags-IsMeasured,
  read_script_flags-IsMeasured, read_script-IsMeasured, read_public_key-IsMeasured, measuring,
)

module _ (c : Crypto) where
  read_address-IsMeasured : IsMeasured (read_address c)
  unfolding read_address
  read_address-IsMeasured = search parts depth 30

  read_script_address-IsMeasured : IsMeasured (read_script_address c)
  unfolding read_script_address
  read_script_address-IsMeasured = search parts depth 30

  read_addr_entry-IsMeasured : IsMeasured (read_addr_entry c)
  unfolding read_addr_entry
  read_addr_entry-IsMeasured = search (read_address-IsMeasured, measuring)

  read_script_entry-IsMeasured : IsMeasured (read_script_entry c)
  unfolding read_script_entry
  read_script_entry-IsMeasured = search (read_script_address-IsMeasured, measuring)

  read_comment-IsMeasured :
      (n : ℕ) (make : Bytes → Bytes → Entry) → IsMeasured (read_comment n make)
  unfolding read_comment
  read_comment-IsMeasured n make = search measuring

  read_deleted_entry-IsMeasured : IsMeasured read_deleted_entry
  unfolding read_deleted_entry
  read_deleted_entry-IsMeasured = search measuring

  if-IsMeasured :
      {A : Type 0} (b : Bool) {m k : Reader A}
      → IsMeasured m
      → IsMeasured k
      → IsMeasured (if b then m else k)
  if-IsMeasured true h k = h
  if-IsMeasured false h k = k

  read_entry-IsMeasured : (header : ℕ) → IsMeasured (read_entry c header)
  unfolding read_entry
  read_entry-IsMeasured header =
      search
        (
          if-IsMeasured, read_addr_entry-IsMeasured, read_script_entry-IsMeasured,
          read_comment-IsMeasured, read_deleted_entry-IsMeasured, measuring,
        )
        depth 10

  append_entry-some : (e : Option Entry) (r : Outcome) → r ≢ none → append_entry e r ≢ none
  append_entry-some none r h = h
  append_entry-some (some e) none h = absurd (h refl)
  append_entry-some (some e) (some (ok es, rest)) h = λ e. cc
  append_entry-some (some e) (some (err x, rest)) h = λ e. cc
  append_entry-some (some e) (some (panic, rest)) h = λ e. cc

  after_entry-some :
      (e : Result (Option Entry)) (rest : Bytes) (later : Outcome)
      → later ≢ none
      → after_entry e rest later ≢ none
  after_entry-some (ok e) rest later h = append_entry-some e later h
  after_entry-some (err x) rest later h = λ e. cc
  after_entry-some panic rest later h = λ e. cc

  -- Whatever the bytes are, and whatever the library's calls give: fuel beyond the number of bytes is
  -- enough for `varEntries.ReadFrom` to end.
  pub read_entries-ends : (fuel : ℕ) (s : Bytes) → length s < fuel → read_entries c fuel s ≢ none
  unfolding read_entries
  read_entries-ends zero s h = absurd (omega arith)
  read_entries-ends (suc fuel) [] h = λ e. cc
  read_entries-ends (suc fuel) (header ∷ s) h =
      let counted : (read_entry c header s).1 + length (read_entry c header s).2 ≡ length s =
        (read_entry-IsMeasured header).measured s in
      after_entry-some _ _ _ (read_entries-ends fuel _ (omega (arith, counted)))
