-- ===== src/CreateTx/Pairs/Signing.antt =====
-- Signing changes only the signature scripts of the inputs.
use btcwallet.Prelude.{
  ℕ, suc, ◌≡◌, refl, sym, ap, ◌∙◌, Bool, inl, inr, Option, none, some, List, [], ◌∷◌, map, set,
  get_elem?, Bool-cases, Option-cases,
}
use btcwallet.TxStore.Types.{OutPoint}
use btcwallet.CreateTx.Pairs.{
  Made, made, refused, TxIn, NewTx, Coin, Calls, Settings, KeyResult, key, key_locked, key_failed,
  set_script, sign_by_key, sign_for, sign_input, TxError, no_sigscript, no_address_info, sign_each,
  unsigned, then_make, or_refuse,
}

abbrev pub previous_outs : List TxIn → List OutPoint
previous_outs ts = map (λ t. t.previous) ts

-- The outputs and the outpoints that are spent are as before.
abbrev pub KeepsShape : NewTx → Made NewTx → Type 0
KeepsShape tx (refused e) = Unit
KeepsShape tx (made t) = (t.tx_out ≡ tx.tx_out) × (previous_outs t.tx_in ≡ previous_outs tx.tx_in)

previous_outs-set :
    (ts : List TxIn) (i : ℕ) (t t' : TxIn)
    → get_elem? ts i ≡ some t
    → t'.previous ≡ t.previous
    → previous_outs (set ts i t') ≡ previous_outs ts
previous_outs-set [] i t t' h e = refl
previous_outs-set (x ∷ ts) ℕ.zero t t' h e =
    let same : x ≡ t = cc in
    ap (λ (o : OutPoint). o ∷ previous_outs ts) (e ∙ ap (λ (u : TxIn). u.previous) (sym same))
previous_outs-set (x ∷ ts) (ℕ.suc i) t t' h e =
    ap (λ (os : List OutPoint). x.previous ∷ os) (previous_outs-set ts i t t' h e)

set_script_lem :
    (tx : NewTx) (i : ℕ) (script : List ℕ) → KeepsShape tx (made (set_script tx i script))
unfolding set_script
set_script_lem tx i script = elim (Option-cases (get_elem? tx.tx_in i)) [
  | inl missing ↦ rw (missing, set_script) (refl, refl)
  | inr (t, at) ↦ rw (at, set_script) (refl, previous_outs-set tx.tx_in i t _ at refl)
]

KeepsShape-weaken :
    (tx t : NewTx) (m : Made NewTx) → KeepsShape tx (made t) → KeepsShape t m → KeepsShape tx m
KeepsShape-weaken tx t (refused e) h g = tt
KeepsShape-weaken tx t (made u) h g = (g.0 ∙ h.0, g.1 ∙ h.1)

KeepsShape-then :
    (tx : NewTx) (m : Made NewTx) (k : NewTx → Made NewTx)
    → KeepsShape tx m
    → ((t : NewTx) → KeepsShape t (k t))
    → KeepsShape tx (then_make m k)
KeepsShape-then tx (refused e) k h g = tt
KeepsShape-then tx (made t) k h g = KeepsShape-weaken tx t (k t) h (g t)

KeepsShape-or_refuse :
    {A : Type 0} (tx : NewTx) (e : TxError) (o : Option A) (k : A → Made NewTx)
    → ((a : A) → KeepsShape tx (k a))
    → KeepsShape tx (then_make (or_refuse e o) k)
KeepsShape-or_refuse tx e none k g = tt
KeepsShape-or_refuse tx e (some a) k g = g a

module _ (calls : Calls) (settings : Settings) where
  sign_by_key_lem :
      (tx : NewTx) (i : ℕ) (c : Coin) (compressed : Bool) (r : KeyResult calls.PrivKey)
      → KeepsShape tx (sign_by_key calls settings tx i c compressed r)
  unfolding sign_by_key
  sign_by_key_lem tx i c compressed key_locked = tt
  sign_by_key_lem tx i c compressed key_failed = tt
  sign_by_key_lem tx i c compressed (key k) =
      KeepsShape-or_refuse tx no_sigscript (calls.signature_script tx i c.pk_script k compressed)
        (λ script. made (set_script tx i script)) (λ script. set_script_lem tx i script)

  sign_for_lem :
      (keys : calls.Keys) (tx : NewTx) (i : ℕ) (c : Coin) (addrs : List calls.Address)
      → KeepsShape tx (sign_for calls settings keys tx i c addrs)
  unfolding sign_for
  sign_for_lem keys tx i c [] = (refl, refl)
  sign_for_lem keys tx i c (a ∷ []) = elim (Bool-cases (calls.is_pub_key_hash a)) [
    | inl yes_hash ↦ rw yes_hash (
        KeepsShape-or_refuse tx no_address_info (calls.find_address keys a)
          (λ info. sign_by_key calls settings tx i c (calls.compressed info) (calls.priv_key info))
          (λ info. sign_by_key_lem tx i c (calls.compressed info) (calls.priv_key info)))
    | inr no_hash ↦ rw no_hash (refl, refl)
  ]
  sign_for_lem keys tx i c (a ∷ b ∷ more) = (refl, refl)

  pub sign_each_lem :
      (keys : calls.Keys) (tx : NewTx) (i : ℕ) (cs : List Coin)
      → KeepsShape tx (sign_each calls settings keys tx i cs)
  unfolding sign_each sign_input
  sign_each_lem keys tx i [] = (refl, refl)
  sign_each_lem keys tx i (c ∷ cs) =
      KeepsShape-then tx (sign_input calls settings keys tx i c)
        (λ signed. sign_each calls settings keys signed (suc i) cs)
        (sign_for_lem keys tx i c (calls.script_addresses c.pk_script))
        (λ t. sign_each_lem keys t (suc i) cs)

pub previous_outs-unsigned :
    (cs : List Coin) → previous_outs (unsigned cs) ≡ map (λ c. c.out_point) cs
unfolding unsigned
previous_outs-unsigned [] = refl
previous_outs-unsigned (c ∷ cs) =
    ap (λ (os : List OutPoint). c.out_point ∷ os) (previous_outs-unsigned cs)
