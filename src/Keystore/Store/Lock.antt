-- ===== src/Keystore/Store/Lock.antt =====
-- `Lock` leaves no clear text of an encrypted private key.
use btcwallet.Prelude.{
  ◌≡◌, ◌≢◌, ◌⊎◌, refl, sym, ◌∙◌, inl, inr, true, false, Option, none, some, List, [], ◌∷◌, arith,
  get_elem?, set, ◌==◌, ==_iff, if◌then◌else◌, All, Bool-cases, get_elem?-set_self,
  get_elem?-set_ne, get_elem?-lt,
}
use mathlib.Core.Path.{subst}
use btcwallet.Errors.{ok, err, keystore, locked}
use btcwallet.Keystore.Address.{BtcAddress, WalletAddress, btc_address, script_address}
use btcwallet.Keystore.Address.Keys.{lock}
use btcwallet.Keystore.Store.{
  KeyStore, Pointer, pointers, is_locked, lock_at, lock_each, lock_store,
}

-- The address that the pointer points to has no clear text, if its private key is encrypted.
abbrev pub IsCleared : List WalletAddress → Pointer → Type 0
IsCleared heap r =
    (a : BtcAddress)
    → get_elem? heap r ≡ some (btc_address a)
    → a.flags.encrypted ≡ true
    → a.priv_key_ct ≡ []

lock_clears : (a : BtcAddress) → (lock a).1.flags.encrypted ≡ true → (lock a).1.priv_key_ct ≡ []
unfolding lock
lock_clears a h = ground arith

-- What a pointer may point to, and what `lock_at` does there.
lock_at_cases :
    (r : Pointer) (heap : List WalletAddress) (o : Option WalletAddress)
    → get_elem? heap r ≡ o
    → ((a : BtcAddress) × (get_elem? heap r ≡ some (btc_address a))
        × (lock_at r heap ≡ set heap r (btc_address (lock a).1)))
      ⊎ (((a : BtcAddress) → get_elem? heap r ≢ some (btc_address a)) × (lock_at r heap ≡ heap))
lock_at_cases r heap none e = inr (λ a h. cc, rw (lock_at, e) refl)
lock_at_cases r heap (some (btc_address a)) e = inl (a, e, rw (lock_at, e) refl)
lock_at_cases r heap (some (script_address a)) e = inr (λ b h. cc, rw (lock_at, e) refl)

lock_at-IsCleared : (r : Pointer) (heap : List WalletAddress) → IsCleared (lock_at r heap) r
lock_at-IsCleared r heap b found enc = elim (lock_at_cases r heap (get_elem? heap r) refl) [
  | inl (a, e, same) ↦
      let there : get_elem? (lock_at r heap) r ≡ some (btc_address (lock a).1) =
        rw same (get_elem?-set_self heap r (btc_address (lock a).1) (get_elem?-lt heap r e)) in
      let which : (lock a).1 ≡ b = cc in
      subst (λ x. x.priv_key_ct ≡ []) which (lock_clears a (rw which enc))
  | inr (no_btc, same) ↦ absurd (no_btc b (rw same at found))
]

-- To lock an address makes none of the others unlocked.
lock_at-keeps :
    (r j : Pointer) (heap : List WalletAddress) → IsCleared heap j → IsCleared (lock_at r heap) j
lock_at-keeps r j heap h = elim (Bool-cases (r == j)) [
  | inl here ↦
      subst (λ i. IsCleared (lock_at r heap) i) ((==_iff r j).0 here) (lock_at-IsCleared r heap)
  | inr there ↦ elim (lock_at_cases r heap (get_elem? heap r) refl) [
    | inl (a, e, same) ↦
        let ne : r ≢ j = λ p. absurd (ground arith) in
        λ b found enc. h b (sym (get_elem?-set_ne heap r j _ ne) ∙ (rw same at found)) enc
    | inr (no_btc, same) ↦ rw same h
  ]
]

lock_each-keeps :
    (rs : List Pointer) (j : Pointer) (heap : List WalletAddress)
    → IsCleared heap j
    → IsCleared (lock_each rs heap) j
unfolding lock_each
lock_each-keeps [] j heap h = h
lock_each-keeps (r ∷ rs) j heap h = lock_each-keeps rs j (lock_at r heap) (lock_at-keeps r j heap h)

lock_each-IsCleared :
    (rs : List Pointer) (heap : List WalletAddress) → All (IsCleared (lock_each rs heap)) rs
unfolding lock_each
lock_each-IsCleared [] heap = tt
lock_each-IsCleared (r ∷ rs) heap = (
  lock_each-keeps rs r (lock_at r heap) (lock_at-IsCleared r heap),
  lock_each-IsCleared rs (lock_at r heap),
)

-- For a key store that is not watching-only, whatever the call returns: after `Lock`, no address of
-- `addrMap` has the clear text of an encrypted private key, and the key store is locked; and `Lock`
-- returns ErrLocked if it was locked before, and no error otherwise.
pub lock_store-IsCleared :
    (s : KeyStore)
    → s.flags.watching_only ≡ false
    → All (IsCleared (lock_store s).1.heap) (pointers (lock_store s).1.addr_map)
      × (is_locked (lock_store s).1 ≡ true)
      × ((lock_store s).0 ≡ (if is_locked s then err (keystore locked) else ok tt))
unfolding lock_store
lock_store-IsCleared s h = elim (Bool-cases (is_locked s)) [
  | inl shut ↦ simp (h, shut) (lock_each-IsCleared (pointers s.addr_map) s.heap, refl, refl)
  | inr unlocked ↦ simp (h, unlocked) (lock_each-IsCleared (pointers s.addr_map) s.heap, refl, refl)
]
