-- ===== src/Keystore/Chained/Indices.antt =====
-- The chain of indices: each index leads to the hash of an address that has this index.
use btcwallet.Prelude.{
  ◌≡◌, ◌≢◌, refl, sym, ◌∙◌, inl, inr, Bool, true, false, Option, none, some, arith, length,
  get_elem?, if◌then◌else◌, Bool-cases, get_elem?-lt, get_elem?-append_lt, get_elem?-append_end,
}
use mathlib.Core.Path.{subst}
use btcwallet.Prelude.Int.{ℤ, pos, ◌+ℤ◌, eqb_ℤ, eqb_ℤ_iff, wrap64, int_eq}
use btcwallet.Prelude.Map.{lookup, lookup-insert_self, lookup-insert_ne}
use btcwallet.Errors.{Result, ok, err, panic}
use btcwallet.Keystore.Address.{Bytes, Crypto, BtcAddress, btc_address, bytes_eq, pub_key_bytes}
use btcwallet.Keystore.Chain.{chained_pub_key}
use btcwallet.Keystore.Store.{KeyStore, Pointer}
use btcwallet.Keystore.Chained.{
  Fresh, as_btc, last_chained, append_address, new_btc_address_without_privkey,
  extend_locked_wallet,
}

-- The address that an index leads to.
pub record IsAt (s : KeyStore) (i : ℤ) (hash : Bytes) : Type 0 where
  pub pointer : Pointer
  pub at : BtcAddress
  pub mapped : lookup hash s.addr_map ≡ some pointer
  pub stored : get_elem? s.heap pointer ≡ some (btc_address at)
  pub own_hash : at.address ≡ hash
  pub own_index : at.chain_index ≡ i

abbrev pub IsChained : KeyStore → Type 0
IsChained s = (i : ℤ) (hash : Bytes) → lookup i s.chain_idx_map ≡ some hash → IsAt s i hash

same_hash : {o : Option Bytes} {x y : Bytes} → o ≡ some x → o ≡ some y → x ≡ y
same_hash e f = cc

module _ (s : KeyStore) (prev a : BtcAddress) (unused : lookup a.address s.addr_map ≡ none) where
  abbrev index : ℤ
  index = wrap64 (prev.chain_index +ℤ pos 1)

  abbrev longer : KeyStore
  longer = append_address prev a s

  new_IsAt : IsAt longer index a.address
  unfolding append_address
  new_IsAt = record {
    pointer = length s.heap;
    at = record a { chain_index = index; chaincode = prev.chaincode };
    mapped = lookup-insert_self a.address (length s.heap) s.addr_map;
    stored = get_elem?-append_end s.heap _;
    own_hash = refl;
    own_index = refl;
  }

  other_hash : (hash : Bytes) {r : Pointer} → lookup hash s.addr_map ≡ some r → a.address ≢ hash
  other_hash hash found q = absurd (cc)

  old_IsAt : (i : ℤ) (hash : Bytes) → IsAt s i hash → IsAt longer i hash
  unfolding append_address
  old_IsAt i hash h = record {
    pointer = h.pointer;
    at = h.at;
    mapped =
        lookup-insert_ne a.address hash (length s.heap) s.addr_map (other_hash hash h.mapped)
        ∙ h.mapped;
    stored =
        get_elem?-append_lt s.heap _ h.pointer (get_elem?-lt s.heap h.pointer h.stored) ∙ h.stored;
    own_hash = h.own_hash;
    own_index = h.own_index;
  }

  append_address-IsChained : IsChained s → IsChained longer
  unfolding append_address
  append_address-IsChained h i hash e = elim (Bool-cases (eqb_ℤ index i)) [
    | inl here ↦
        let same : index ≡ i = (eqb_ℤ_iff index i).0 here in
        let e' : lookup index longer.chain_idx_map ≡ some hash =
          subst (λ j. lookup j longer.chain_idx_map ≡ some hash) (sym same) e in
        let own : a.address ≡ hash =
          same_hash (lookup-insert_self index a.address s.chain_idx_map) e' in
        subst (λ j. IsAt longer j hash) same (subst (λ v. IsAt longer index v) own new_IsAt)
    | inr there ↦
        let ne : index ≢ i = λ q. absurd (ground (arith, eqb_ℤ_iff index i)) in
        old_IsAt i hash (h i hash (sym (lookup-insert_ne index i a.address s.chain_idx_map ne) ∙ e))
  ]

module _ (c : Crypto) (fresh : Fresh) (s : KeyStore) where
  -- The hash of the address that is chained off the last one is not yet in the map.
  abbrev pub IsUnused : Type 0
  IsUnused =
      (r : Pointer) (prev : BtcAddress) (k : Bytes) (a : BtcAddress)
      → last_chained s ≡ ok r
      → as_btc r s ≡ ok prev
      → chained_pub_key c (pub_key_bytes c prev) prev.chaincode ≡ ok k
      → new_btc_address_without_privkey c fresh k ≡ ok a
      → lookup a.address s.addr_map ≡ none

  moved_start :
      (m : ℤ) (t : KeyStore) → IsChained t → IsChained (record t { missing_keys_start = m })
  moved_start m t h i hash e =
      let w = h i hash e in
      record {
        pointer = w.pointer;
        at = w.at;
        mapped = w.mapped;
        stored = w.stored;
        own_hash = w.own_hash;
        own_index = w.own_index;
      }

  IsChained-if :
      (b : Bool) (m : ℤ) (t : KeyStore)
      → IsChained t
      → IsChained (if b then record t { missing_keys_start = m } else t)
  IsChained-if true m t h = moved_start m t h
  IsChained-if false m t h = h

  module _ (h : IsChained s) (unused : IsUnused) where
    after_address :
        (r : Pointer) (prev : BtcAddress) (k : Bytes) (q : Result BtcAddress)
        → last_chained s ≡ ok r
        → as_btc r s ≡ ok prev
        → chained_pub_key c (pub_key_bytes c prev) prev.chaincode ≡ ok k
        → new_btc_address_without_privkey c fresh k ≡ q
        → IsChained (extend_locked_wallet c fresh s).1
    unfolding extend_locked_wallet
    after_address r prev k (ok a) l b e f =
        rw (l, b, e, f)
          (IsChained-if _ _ _ (append_address-IsChained s prev a (unused r prev k a l b e f) h))
    after_address r prev k (err x) l b e f = rw (l, b, e, f) h
    after_address r prev k panic l b e f = rw (l, b, e, f) h

    after_key :
        (r : Pointer) (prev : BtcAddress) (p : Result Bytes)
        → last_chained s ≡ ok r
        → as_btc r s ≡ ok prev
        → chained_pub_key c (pub_key_bytes c prev) prev.chaincode ≡ p
        → IsChained (extend_locked_wallet c fresh s).1
    unfolding extend_locked_wallet
    after_key r prev (ok k) l b e = after_address r prev k _ l b e refl
    after_key r prev (err x) l b e = rw (l, b, e) h
    after_key r prev panic l b e = rw (l, b, e) h

    after_lookup :
        (r : Pointer) (p : Result BtcAddress)
        → last_chained s ≡ ok r
        → as_btc r s ≡ p
        → IsChained (extend_locked_wallet c fresh s).1
    unfolding extend_locked_wallet
    after_lookup r (ok prev) l b = after_key r prev _ l b refl
    after_lookup r (err x) l b = rw (l, b) h
    after_lookup r panic l b = rw (l, b) h

    after_last :
        (p : Result Pointer) → last_chained s ≡ p → IsChained (extend_locked_wallet c fresh s).1
    unfolding extend_locked_wallet
    after_last (ok r) l = after_lookup r _ l refl
    after_last (err x) l = rw l h
    after_last panic l = rw l h

    -- For a key store in which each chained index leads to the hash of an address with that index,
    -- and a new address whose hash is not yet in the map: `extendLockedWallet` keeps this, whatever it
    -- returns.
    pub extend_locked_wallet-IsChained : IsChained (extend_locked_wallet c fresh s).1
    extend_locked_wallet-IsChained = after_last _ refl
