-- ===== src/Tests/Crypto.antt =====
-- A small cryptography for the tests: a cipher that reverses the data, a checksum that counts, and a
-- group of three elements.
use btcwallet.Prelude.{
  ℕ, zero, suc, ◌*◌, ◌%◌, ◌≡◌, ap, [], ◌∷◌, ◌++◌, arith, length, take, drop, ◌==◌, if◌then◌else◌,
}
use mathlib.Core.List.{reverse, reverse-reverse}
use btcwallet.Errors.{
  Result, ok, err, keystore, invalid_key_length, invalid_hash, invalid_pubkey_length,
}
use btcwallet.Bytes.{put_uint, get_uint}
use btcwallet.Keystore.Address.{Bytes, Crypto, Point}
use btcwallet.Keystore.Address.Encryption.{IsInverted}
use btcwallet.Keystore.Chain.{IsGroup}
use btcwallet.Keystore.BigInt.{set_bytes, set_bytes_zero, big_endian}
use btcwallet.Keystore.Codec.RoundTrip.{IsDigest}
use btcwallet.Keystore.Codec.Addresses.{wallet_hash}

abbrev point : ℕ → Point
point n = record { x = n % 3; y = 0 }

abbrev of_length : ℕ → Bytes → Result (Unit {0})
of_length n b = if length b == n then ok tt else err (keystore invalid_hash)

abbrev parse : Bytes → Result Point
parse b =
    if length b == 33
    then ok (record { x = get_uint (drop 1 b); y = 0 })
    else if length b == 65
    then ok (record { x = get_uint (take 32 (drop 1 b)); y = 0 })
    else err (keystore invalid_pubkey_length)

unfoldable pub small : Crypto
unfolding set_bytes
small = record {
  new_cipher = λ k. if length k == 32 then ok tt else err (keystore invalid_key_length);
  cfb_encrypt = λ k iv b. reverse b;
  cfb_decrypt = λ k iv b. reverse b;
  double_sha256 = λ b. (length b % 256) ∷ 7 ∷ 7 ∷ 7 ∷ [];
  hash160 = λ b. put_uint 20 (get_uint b);
  new_address_pub_key_hash = of_length 20;
  new_address_script_hash = of_length 20;
  extract_pk_script_addrs = λ b. ok tt;
  curve_order = 3;
  scalar_base_mult = λ b. point (set_bytes 0 b);
  scalar_mult = λ p b. point (set_bytes 0 b * p.x);
  parse_pub_key = parse;
  serialize_compressed = λ p. 2 ∷ put_uint 32 p.x;
  serialize_uncompressed = λ p. 4 ∷ (put_uint 32 p.x ++ put_uint 32 p.y);
}

pub small-IsInverted : IsInverted small
unfolding small
small-IsInverted k iv b = reverse-reverse b

pub small-IsDigest : IsDigest small
unfolding wallet_hash get_uint small
small-IsDigest b = omega arith

times : (m n : ℕ) → m * (n % 3) % 3 ≡ m * n % 3 % 3
times zero n = omega arith
times (suc m) n = omega (arith, times m n)

pub small-IsGroup : IsGroup small
unfolding small
small-IsGroup = record {
  multiplied = λ k b m h.
      rw (set_bytes_zero k, set_bytes_zero b, set_bytes_zero m, h)
        (ap (λ n. record { x = n; y = 0 }) (times (big_endian b) (big_endian k)));
  order_positive = omega arith;
  order_fits = omega arith;
}
