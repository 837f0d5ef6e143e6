-- ===== src/Keystore/Entries/RoundTrip.antt =====
-- The entries that `varEntries.WriteTo` writes are read back until the end of the file.
use btcwallet.Prelude.{
  ℕ, zero, suc, ◌%◌, ◌<◌, ◌≤◌, ◌≡◌, refl, ap, some, List, [], ◌∷◌, ◌++◌, map, length, arith, All,
  length-append,
}
use mathlib.Core.Path.{subst}
use btcwallet.Errors.{Result, ok, err, panic}
use btcwallet.Bytes.{put_uint}
use btcwallet.Reader.Laws.{Decodes, >>=-Decodes, last-Decodes, read_uint-Decodes}
use btcwallet.Keystore.Address.{Bytes, Crypto, BtcAddress, ScriptAddress}
use btcwallet.Keystore.Codec.Addresses.{write_address, write_script_address}
use btcwallet.Keystore.Codec.RoundTrip.{
  read_sized-Decodes, IsDigest, IsStorableAddress, IsStorableScript, read_address-write_address,
  read_script_address-Decodes, ok_injective,
}
use btcwallet.Keystore.Entries.{
  Entry, addr_entry, script_entry, addr_comment_entry, tx_comment_entry, after_bytes, join_bytes,
  write_comment, write_entry, write_entries, read_addr_entry, read_script_entry, read_comment,
  read_entry, read_entries,
}

-- An entry whose parts fit their fields and are read without an error. The comment of a transaction is none, since its hash is
-- not written.
pub data IsStorableEntry (c : Crypto) : Entry → Type 0 where
  storable_addr :
      (hash : Bytes) (a : BtcAddress)
      → length hash ≡ 20
      → IsStorableAddress c a
      → IsStorableEntry c (addr_entry hash a)
  storable_script :
      (hash : Bytes) (a : ScriptAddress)
      → length hash ≡ 20
      → IsStorableScript c a
      → IsStorableEntry c (script_entry hash a)
  storable_comment :
      (hash comment : Bytes)
      → length hash ≡ 20
      → IsStorableEntry c (addr_comment_entry hash comment)

-- What is read back: the clear text of a private key is not stored.
abbrev pub as_read : Entry → Entry
as_read (addr_entry hash a) = addr_entry hash (record a { priv_key_ct = [] })
as_read (script_entry hash a) = script_entry hash a
as_read (addr_comment_entry hash comment) = addr_comment_entry hash comment
as_read (tx_comment_entry hash comment) = tx_comment_entry hash comment

module _ (c : Crypto) (digest : IsDigest c) where
  after_bytes-ok :
      (bs : Bytes) (r : Result Bytes) {w : Bytes}
      → after_bytes bs r ≡ ok w
      → (v : Bytes) × (r ≡ ok v) × (bs ++ v ≡ w)
  after_bytes-ok bs (ok v) h = (v, refl, ok_injective h)
  after_bytes-ok bs (err e) h = absurd (cc)
  after_bytes-ok bs panic h = absurd (cc)

  read_addr_entry-Decodes :
      (hash : Bytes) (a : BtcAddress)
      → length hash ≡ 20
      → IsStorableAddress c a
      → {v : Bytes} → write_address c a ≡ ok v
      → Decodes (read_addr_entry c) (hash ++ v) (some (as_read (addr_entry hash a)))
  unfolding read_addr_entry
  read_addr_entry-Decodes hash a l h e =
      >>=-Decodes _ (read_sized-Decodes 20 hash l)
        (last-Decodes _ (read_address-write_address c digest a h e))

  read_script_entry-Decodes :
      (hash : Bytes) (a : ScriptAddress)
      → length hash ≡ 20
      → IsStorableScript c a
      → Decodes
          (read_script_entry c)
          (hash ++ write_script_address c a)
          (some (script_entry hash a))
  unfolding read_script_entry
  read_script_entry-Decodes hash a l h =
      >>=-Decodes _ (read_sized-Decodes 20 hash l)
        (last-Decodes _ (read_script_address-Decodes c digest a h))

  comment_fits :
      (before comment : Bytes) {w : Bytes}
      → write_comment before comment ≡ ok w
      → length comment ≤ 65535
  comment_fits before comment h = ground arith

  comment_written :
      (before comment : Bytes) {w : Bytes}
      → write_comment before comment ≡ ok w
      → before ++ (put_uint 2 (length comment % 65536) ++ comment) ≡ w
  comment_written before comment h = ground arith

  read_comment-Decodes :
      (make : Bytes → Bytes → Entry) (hash comment : Bytes)
      → length hash ≡ 20
      → length comment ≤ 65535
      → Decodes
          (read_comment 20 make)
          (hash ++ (put_uint 2 (length comment % 65536) ++ comment))
          (some (make hash comment))
  unfolding read_comment
  read_comment-Decodes make hash comment l h = >>=-Decodes _ (read_sized-Decodes 20 hash l) (
      >>=-Decodes _ (read_uint-Decodes 2 (length comment % 65536) (omega arith))
        (last-Decodes _ (read_sized-Decodes (length comment % 65536) comment (omega arith))))

  -- An entry is written as a header and what is read behind that header.
  record IsWritten (e : Entry) (w : Bytes) : Type 0 where
    header : ℕ
    body : Bytes
    whole : header ∷ body ≡ w
    read : Decodes (read_entry c header) body (some (as_read e))

  write_entry-IsWritten :
      (e : Entry) → IsStorableEntry c e → {w : Bytes} → write_entry c e ≡ ok w → IsWritten e w
  unfolding write_entry read_entry
  write_entry-IsWritten _ (storable_addr hash a l h) eq =
      let (v, e, same) = after_bytes-ok (0 ∷ hash) (write_address c a) eq in
      record {
        header = 0;
        body = hash ++ v;
        whole = same;
        read = read_addr_entry-Decodes hash a l h e;
      }
  write_entry-IsWritten _ (storable_script hash a l h) eq = record {
    header = 8;
    body = hash ++ write_script_address c a;
    whole = ok_injective eq;
    read = read_script_entry-Decodes hash a l h;
  }
  write_entry-IsWritten _ (storable_comment hash comment l) eq = record {
    header = 1;
    body = hash ++ (put_uint 2 (length comment % 65536) ++ comment);
    whole = comment_written (1 ∷ hash) comment eq;
    read =
        read_comment-Decodes addr_comment_entry hash comment l (comment_fits (1 ∷ hash) comment eq);
  }

  join_bytes-ok :
      (r later : Result Bytes) {w : Bytes}
      → join_bytes r later ≡ ok w
      → (u : Bytes) × (v : Bytes) × (r ≡ ok u) × (later ≡ ok v) × (u ++ v ≡ w)
  join_bytes-ok (ok u) later h =
      let (v, e, same) = after_bytes-ok u later h in (u, v, refl, e, same)
  join_bytes-ok (err e) later h = absurd (cc)
  join_bytes-ok panic later h = absurd (cc)

  -- A step of the loop over bytes that begin with an entry.
  read_entries-step :
      (e : Entry) (fuel : ℕ) {u : Bytes} (v : Bytes) (es : List Entry)
      → IsWritten e u
      → read_entries c fuel v ≡ some (ok es, [])
      → read_entries c (suc fuel) (u ++ v) ≡ some (ok (as_read e ∷ es), [])
  unfolding read_entries
  read_entries-step e fuel v es h later =
      subst (λ x. read_entries c (suc fuel) (x ++ v) ≡ some (ok (as_read e ∷ es), [])) h.whole
        (rw (read_entries, h.read.run v, later) refl)

  rest_shorter :
      {e : Entry} (u v : Bytes) {w : Bytes} {fuel : ℕ}
      → IsWritten e u
      → u ++ v ≡ w
      → length w < suc fuel
      → length v < fuel
  rest_shorter u v h same l = omega (arith, length-append u v, ap length same, ap length h.whole)

  -- What `varEntries.WriteTo` writes, `varEntries.ReadFrom` reads back, up to the end of the file and
  -- in the same order, with any fuel beyond the number of bytes; only the clear text of a private key
  -- is lost. That is for a digest of bytes and entries whose parts fit their fields: an address has
  -- the flag of its public key, which btcec parses back, a script address has the flag of its script
  -- (`watchingCopy` makes one without), btcutil and btcscript accept both, and no entry is the comment
  -- of a transaction.
  pub read_entries-write_entries :
      (es : List Entry) (fuel : ℕ) {w : Bytes}
      → All (IsStorableEntry c) es
      → write_entries c es ≡ ok w
      → length w < fuel
      → read_entries c fuel w ≡ some (ok (map as_read es), [])
  unfolding read_entries write_entries
  read_entries-write_entries es zero h e l = absurd (omega arith)
  read_entries-write_entries [] (suc fuel) h e l =
      subst (λ x. read_entries c (suc fuel) x ≡ some (ok [], [])) (ok_injective e) refl
  read_entries-write_entries (e ∷ es) (suc fuel) {w} h eq l =
      let (u, v, eu, ev, same) = join_bytes-ok (write_entry c e) (write_entries c es) eq in
      let first : IsWritten e u = write_entry-IsWritten e h.0 eu in
      let shorter : length v < fuel = rest_shorter u v first same l in
      subst (λ x. read_entries c (suc fuel) x ≡ some (ok (map as_read (e ∷ es)), [])) same
        (read_entries-step e fuel v (map as_read es) first
          (read_entries-write_entries es fuel h.1 ev shorter))
