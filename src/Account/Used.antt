-- ===== src/Account/Used.antt =====
-- AddressUsed of account.go: it decides whether a credit of a record pays to the address.
use mathlib.Core.Path.{subst}
use btcwallet.Prelude.{
  ℕ, ◌≡◌, ◌⊎◌, refl, Bool, true, false, inl, inr, List, [], ◌∷◌, All, Bool-cases,
}
use btcwallet.TxStore.Types.{Store, TxHandle, CreditHandle, Result, ok}
use btcwallet.TxStore.Query.Records.{records, credits, credit_script}
use btcwallet.TxStore.Query.Readable.{
  IsRead, IsReadRecord, IsReadable, KeepsAll, records-IsReadRecord,
}
use btcwallet.Keystore.Address.{Bytes, bytes_equal, bytes_equal_iff}
use btcwallet.Account.{Account, pays_to, credit_pays_to, record_pays_to, address_used}

abbrev pub Any {ℓ} : {A : Type ℓ} → (A → Type 0) → List A → Type 0
Any P [] = ⊥
Any P (x ∷ xs) = P x ⊎ Any P xs

-- A result with what it decides: whether some element of a list has a property.
abbrev pub Decides {ℓ} : {A : Type ℓ} → (A → Type 0) → List A → Result Bool → Type 0
Decides P xs r = ((r ≡ ok true) × Any P xs) ⊎ ((r ≡ ok false) × All (λ x. ¬ P x) xs)

none_of {ℓ} : {A : Type ℓ} (P : A → Type 0) (xs : List A) → All (λ x. ¬ P x) xs → ¬ Any P xs
none_of P [] h a = a
none_of P (x ∷ xs) h (inl p) = h.0 p
none_of P (x ∷ xs) h (inr a) = none_of P xs h.1 a

ok-inj : {A : Type 0} (x y : A) → ok x ≡ ok y → x ≡ y
ok-inj x y e = cc

module _ {Address : Type 0} (extract : List ℕ → List Address) (script_address : Address → Bytes)
    (pk_hash : Bytes) (s : Store) where
  -- The script of the credit's output has an address with the hash.
  abbrev pub Pays : CreditHandle → Type 0
  Pays c =
      (script : List ℕ) × (credit_script s c ≡ ok script)
      × Any (λ a. script_address a ≡ pk_hash) (extract script)

  -- A credit of the record pays to the address.
  abbrev pub RecordPays : TxHandle → Type 0
  RecordPays r = (cs : List CreditHandle) × (credits s r ≡ ok cs) × Any Pays cs

  pays_to_lem :
      (xs : List Address)
      → ((pays_to extract script_address pk_hash xs ≡ true)
          × Any (λ a. script_address a ≡ pk_hash) xs)
        ⊎ ((pays_to extract script_address pk_hash xs ≡ false)
            × All (λ a. ¬ (script_address a ≡ pk_hash)) xs)
  unfolding pays_to
  pays_to_lem [] = inr (refl, tt)
  pays_to_lem (x ∷ xs) = elim (Bool-cases (bytes_equal (script_address x) pk_hash)) [
    | inl same ↦
        inl (rw (same, pays_to) refl, inl ((bytes_equal_iff (script_address x) pk_hash).0 same))
    | inr other ↦ elim (pays_to_lem xs) [
      | inl (e, a) ↦ inl (rw (other, pays_to) e, inr a)
      | inr (e, h) ↦ inr (
        rw (other, pays_to) e,
        ((λ p. absurd (let same = (bytes_equal_iff (script_address x) pk_hash).1 p in cc)), h),
      )
    ]
  ]

  credit_pays_to_lem :
      (cs : List CreditHandle)
      → All (IsRead s) cs
      → Decides Pays cs (credit_pays_to extract script_address pk_hash s cs)
  unfolding credit_pays_to
  credit_pays_to_lem [] h = inr (refl, tt)
  credit_pays_to_lem (c ∷ cs) ((script, read), h) = elim (pays_to_lem (extract script)) [
    | inl (e, a) ↦ inl (rw (read, e, credit_pays_to) refl, inl (script, read, a))
    | inr (e, not_here) ↦ elim (credit_pays_to_lem cs h) [
      | inl (f, a) ↦ inl (rw (read, e, credit_pays_to) f, inr a)
      | inr (f, nowhere) ↦ inr (
        rw (read, e, credit_pays_to) f,
        (
          (λ (script', read', a).
              none_of (λ a. script_address a ≡ pk_hash) (extract script) not_here
                (subst (λ t. Any (λ a. script_address a ≡ pk_hash) (extract t))
                  (ok-inj script' script (cc)) a)),
          nowhere,
        ),
      )
    ]
  ]

  record_pays_to_lem :
      (rs : List TxHandle)
      → All (IsReadRecord s) rs
      → Decides RecordPays rs (record_pays_to extract script_address pk_hash s rs)
  unfolding record_pays_to
  record_pays_to_lem [] h = inr (refl, tt)
  record_pays_to_lem (r ∷ rs) ((cs, read, each), h) = elim (credit_pays_to_lem cs each) [
    | inl (e, a) ↦ inl (rw (read, e, record_pays_to) refl, inl (cs, read, a))
    | inr (e, not_here) ↦ elim (record_pays_to_lem rs h) [
      | inl (f, a) ↦ inl (rw (read, e, record_pays_to) f, inr a)
      | inr (f, nowhere) ↦ inr (
        rw (read, e, record_pays_to) f,
        (
          (λ (cs', read', a).
              none_of Pays cs not_here (subst (λ t. Any Pays t) (ok-inj cs' cs (cc)) a)),
          nowhere,
        ),
      )
    ]
  ]

-- For a store whose references stand AddressUsed decides whether any credit of any of its Records
-- has the address with the hash in its script; it does not panic. The sort of Records loses nothing.
pub address_used-Decides :
    {Address K : Type 0} (extract : List ℕ → List Address) (script_address : Address → Bytes)
    (pk_hash : Bytes) (sort : List TxHandle → List TxHandle) (a : Account K)
    → KeepsAll sort
    → IsReadable a.tx_store
    → (rs : List TxHandle) × (records sort a.tx_store ≡ ok rs)
      × Decides
          (RecordPays extract script_address pk_hash a.tx_store)
          rs
          (address_used extract sort script_address pk_hash a)
unfolding address_used
address_used-Decides extract script_address pk_hash sort a keeps readable =
    let (rs, eq, each) = records-IsReadRecord a.tx_store sort keeps readable in
    (
      rs,
      eq,
      rw (eq, address_used) (record_pays_to_lem extract script_address pk_hash a.tx_store rs each),
    )
