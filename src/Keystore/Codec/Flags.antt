-- ===== src/Keystore/Codec/Flags.antt =====
-- The flags, scripts and public keys that were written are read back.
use btcwallet.Prelude.{
  ℕ, zero, suc, ◌+◌, ◌*◌, ◌/◌, ◌%◌, ◌<◌, ◌≡◌, refl, sym, ap, ◌∙◌, Bool, false, List, [], ◌∷◌,
  length, arith, replicate, ◌==◌, if◌then◌else◌,
}
use btcwallet.Prelude.Int.{two_32}
use mathlib.Core.Path.{subst}
use btcwallet.Errors.{Result, ok}
use btcwallet.Bytes.{get_uint}
use btcwallet.Reader.{lift, read_full}
use btcwallet.Reader.Laws.{
  Decodes, Decodes-eq, >>=-Decodes, last-Decodes, only-Decodes, lift-Decodes, read_uint-Decodes,
  read_full-Decodes,
}
use btcwallet.Keystore.Address.{Bytes, AddrFlags, ScriptFlags}
use btcwallet.Keystore.Codec.{
  flag_byte, flag_bytes, has_bit, WalletFlags, read_wallet_flags, write_wallet_flags, addr_flags_of,
  check_encrypted, read_addr_flags, addr_flag_list, write_addr_flags, read_script_flags,
  write_script_flags, read_script, write_script, key_length, read_public_key,
}

-- A flag, by its place in the byte.
abbrev flag : ℕ → List Bool → Bool
flag i [] = false
flag zero (b ∷ bs) = b
flag (suc i) (b ∷ bs) = flag i bs

lowest_bit : (b : Bool) (n : ℕ) → ((if b then 1 else 0) + 2 * n) % 2 == 1 ≡ b
lowest_bit b n = ground arith

other_bits : (b : Bool) (n : ℕ) → ((if b then 1 else 0) + 2 * n) / 2 ≡ n
other_bits b n = ground arith

no_bits : (i : ℕ) (rest : Bytes) → has_bit i (0 ∷ rest) ≡ false
unfolding has_bit
no_bits zero rest = refl
no_bits (suc i) rest = no_bits i rest

-- A flag that was written is seen.
has_bit-flag_byte :
    (i : ℕ) (bs : List Bool) (rest : Bytes) → has_bit i (flag_byte bs ∷ rest) ≡ flag i bs
unfolding has_bit flag_byte
has_bit-flag_byte i [] rest = no_bits i rest
has_bit-flag_byte zero (b ∷ bs) rest = lowest_bit b (flag_byte bs)
has_bit-flag_byte (suc i) (b ∷ bs) rest =
    rw (other_bits b (flag_byte bs)) (has_bit-flag_byte i bs rest)

flag_bytes-Decodes : (bs : List Bool) → Decodes (read_full 8) (flag_bytes bs) (flag_bytes bs)
unfolding flag_bytes
flag_bytes-Decodes bs = read_full-Decodes (flag_byte bs ∷ replicate 7 0)

seen : (i : ℕ) (bs : List Bool) → has_bit i (flag_bytes bs) ≡ flag i bs
unfolding flag_bytes
seen i bs = has_bit-flag_byte i bs (replicate 7 0)

read_wallet_flags-Decodes : (f : WalletFlags) → Decodes read_wallet_flags (write_wallet_flags f) f
unfolding read_wallet_flags write_wallet_flags
read_wallet_flags-Decodes f =
    let bs : List Bool = f.use_encryption ∷ f.watching_only ∷ [] in
    Decodes-eq (last-Decodes _ (flag_bytes-Decodes bs)) (rw (seen 0 bs, seen 1 bs) refl)

addr_flags_seen : (f : AddrFlags) → addr_flags_of (flag_bytes (addr_flag_list f)) ≡ f
addr_flags_seen f =
    let bs : List Bool = addr_flag_list f in
    rw (seen 0 bs, seen 1 bs, seen 2 bs, seen 3 bs, seen 4 bs, seen 5 bs, seen 6 bs, seen 7 bs) refl

flags_pass : (f : AddrFlags) {w : Bytes} → write_addr_flags f ≡ ok w → check_encrypted f f ≡ ok f
unfolding write_addr_flags check_encrypted
flags_pass f e = ground arith

flags_written :
    (f : AddrFlags) {w : Bytes} → write_addr_flags f ≡ ok w → flag_bytes (addr_flag_list f) ≡ w
unfolding write_addr_flags check_encrypted
flags_written f e = ground arith

lift_ok-Decodes : {A : Type 0} {r : Result A} {a : A} → r ≡ ok a → Decodes (lift r) [] a
unfolding lift
lift_ok-Decodes e = record { run = λ rest. rw e refl }

pub read_addr_flags-Decodes :
    (f : AddrFlags) {w : Bytes} → write_addr_flags f ≡ ok w → Decodes read_addr_flags w f
unfolding read_addr_flags write_addr_flags
read_addr_flags-Decodes f {w} e =
    let bs : Bytes = flag_bytes (addr_flag_list f) in
    let same : addr_flags_of bs ≡ f = addr_flags_seen f in
    let checked : check_encrypted (addr_flags_of bs) (addr_flags_of bs) ≡ ok f =
      ap (λ g. check_encrypted g g) same ∙ flags_pass f e in
    subst (λ v. Decodes read_addr_flags v f) (flags_written f e)
      (only-Decodes _ (flag_bytes-Decodes (addr_flag_list f)) (lift_ok-Decodes checked))

pub read_script_flags-Decodes :
    (f : ScriptFlags) → Decodes read_script_flags (write_script_flags f) f
unfolding read_script_flags write_script_flags
read_script_flags-Decodes f =
    let bs : List Bool =
      false ∷ f.has_script ∷ false ∷ false ∷ false ∷ f.script_change ∷ f.script_unsynced
      ∷ f.script_partial_sync ∷ [] in
    Decodes-eq (last-Decodes _ (flag_bytes-Decodes bs))
      (rw (seen 1 bs, seen 5 bs, seen 6 bs, seen 7 bs) refl)

pub read_script-Decodes : (s : Bytes) → length s < two_32 → Decodes read_script (write_script s) s
unfolding read_script write_script
read_script-Decodes s h =
    >>=-Decodes _ (read_uint-Decodes 4 (length s % two_32) (omega arith))
      (subst (λ n. Decodes (read_full n) s s) (omega arith) (read_full-Decodes s))

-- A public key's bytes in one of the two forms.
pub record IsKeyForm (k : Bytes) : Type 0 where
  pub format : ℕ
  pub point : Bytes
  pub is_whole : k ≡ format ∷ point
  pub is_byte : format < 256
  pub is_form : key_length format ≡ ok (length point)

one_byte : (b : ℕ) → get_uint (b ∷ []) ≡ b
unfolding get_uint
one_byte b = omega arith

pub read_public_key-Decodes : (k : Bytes) → IsKeyForm k → Decodes read_public_key k k
unfolding read_public_key
read_public_key-Decodes k h =
    let formed : key_length (get_uint (h.format ∷ [])) ≡ ok (length h.point) =
      ap key_length (one_byte h.format) ∙ h.is_form in
    subst (λ v. Decodes read_public_key v v) (sym h.is_whole)
      (>>=-Decodes _ (read_full-Decodes (h.format ∷ []))
        (lift-Decodes _ formed (last-Decodes _ (read_full-Decodes h.point))))
