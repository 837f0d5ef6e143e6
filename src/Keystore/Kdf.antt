-- ===== src/Keystore/Kdf.antt =====
-- The key derivation function: `keyOneIter`, over a lookup table of 64-byte hashes, and `Key`; and
-- its parameters in a key store file.
use btcwallet.Prelude.{
  ℕ, zero, suc, ◌-◌, ◌/◌, ◌%◌, ◌||◌, not, none, some, List, [], ◌∷◌, ◌++◌, take, drop, get_elem?,
  set, ◌==◌, if◌then◌else◌,
}
use Prim.Native.Nat.{bit_xor}
use btcwallet.Errors.{Result, ok, err, panic}
use btcwallet.Bytes.{get_uint}
use btcwallet.Keystore.Address.{Bytes}

pub record KdfParameters : Type 0 where
  pub mem : ℕ
  pub n_iter : ℕ
  pub salt : Bytes

-- `x[j] ^= v[j]`
abbrev pub xor_bytes : Bytes → Bytes → Bytes
xor_bytes [] v = []
xor_bytes (x ∷ xs) [] = x ∷ xs
xor_bytes (x ∷ xs) (v ∷ vs) = bit_xor x v ∷ xor_bytes xs vs

module _ (sha512 : Bytes → Bytes) where
  -- The lookup table, as its hashes: each is the hash of the one before.
  unfoldable pub hash_table : ℕ → Bytes → List Bytes
  hash_table zero seed = []
  hash_table (suc n) seed = seed ∷ hash_table n (sha512 seed)

  abbrev pub chunk : List Bytes → ℕ → Bytes
  chunk table i = elim (get_elem? table i) [ none ↦ [] | some h ↦ h ]

  -- One pass of the second loop. `x` is the last hash of the table, which each pass writes.
  unfoldable pub look_up : ℕ → List Bytes → List Bytes
  look_up n table =
      let x = chunk table (n - 1) in
      let i = get_uint (drop 60 x) % n in set table (n - 1) (sha512 (xor_bytes x (chunk table i)))

  unfoldable pub look_ups : ℕ → ℕ → List Bytes → List Bytes
  unfolding look_up
  look_ups zero n table = table
  look_ups (suc k) n table = look_ups k n (look_up n table)

  -- `keyOneIter`: the slices of the table are in bounds only if its size is a multiple of 64, and not
  -- 0; sizes of 2^38 bytes and more, whose number of hashes is cut to 32 bits, are left out.
  unfoldable pub key_one_iter : Bytes → Bytes → ℕ → Result Bytes
  unfolding look_ups hash_table
  key_one_iter passphrase salt mem =
      let n = mem / 64 in
      if n == 0 || not (mem % 64 == 0)
      then panic
      else ok (
          take 32 (chunk (look_ups (n / 2) n (hash_table n (sha512 (passphrase ++ salt)))) (n - 1)))

  abbrev pub iterate : ℕ → KdfParameters → Result Bytes → Result Bytes
  iterate zero params r = r
  iterate (suc k) params (ok key) = iterate k params (key_one_iter key params.salt params.mem)
  iterate (suc k) params (err e) = err e
  iterate (suc k) params panic = panic

  -- `Key`
  unfoldable pub key : Bytes → KdfParameters → Result Bytes
  unfolding key_one_iter
  key passphrase params = iterate params.n_iter params (ok passphrase)
