-- ===== src/Rescan/Batch.antt =====
-- What a batch keeps of the jobs that are merged into it (rescanBatch.merge of rescan.go).
use btcwallet.Prelude.{
  ◌≡◌, ◌⊎◌, refl, false, inl, inr, List, [], ◌∷◌, ◌++◌, arith, Bool-cases, if◌then◌else◌, ==_iff,
  ◌==◌,
}
use btcwallet.Prelude.Int.{ℤ, pos, ◌≤ℤ◌}
use btcwallet.Prelude.Map.{Map, nat_eq, lookup, insert, lookup-insert}
use btcwallet.TxStore.Types.{OutPoint, out_point_eq, eqb_out_point, eqb_out_point_iff}
use btcwallet.Rescan.{
  RescanJob, RescanBatch, Addresses, AccountRef, Address, addresses_at, merge_addresses,
  merge_outpoints, merge, keys, batch_job, empty, no_accounts, merge_job,
}
use mathlib.Core.List.{
  Mem, mem-append_left, mem-append_right, mem-cons, mem-cons_self, mem-cons_of_mem, not-mem-nil,
  Mem-prop,
}
use mathlib.Core.Logic.Or
use mathlib.Core.Path.{subst}

-- The address is one of the account's.
abbrev pub HasAddress : Addresses → AccountRef → Address → Type 0
HasAddress m acct a = Mem a (addresses_at acct m)

-- A job rescans all that another one asks for.
pub record Includes (big small : RescanJob) : Type 0 where
  pub addresses :
      (acct : AccountRef) (a : Address)
      → HasAddress small.addresses acct a
      → HasAddress big.addresses acct a
  pub out_points : (op : OutPoint) → Mem op small.out_points → Mem op big.out_points
  pub from : big.start_height ≤ℤ small.start_height

pub Includes-refl : (j : RescanJob) → Includes j j
Includes-refl j = record { addresses = λ acct a h. h; out_points = λ op h. h; from = omega arith }

addresses_at-insert :
    (m : Addresses) (k acct : AccountRef) (xs : List Address)
    → addresses_at acct (insert k xs m) ≡ (if k == acct then xs else addresses_at acct m)
addresses_at-insert m k acct xs = ground (arith, lookup-insert k acct xs m)

addresses_at-cons :
    (k acct : AccountRef) (xs : List Address) (m : Addresses)
    → addresses_at acct ((k, xs) ∷ m) ≡ (if k == acct then xs else addresses_at acct m)
unfolding lookup
addresses_at-cons k acct xs m = ground arith

-- `m[k] = append(m[k], xs...)`
abbrev extend : Addresses → AccountRef → List Address → Addresses
extend m k xs = insert k (addresses_at k m ++ xs) m

extend_self :
    (m : Addresses) (k : AccountRef) (xs : List Address)
    → addresses_at k (extend m k xs) ≡ addresses_at k m ++ xs
extend_self m k xs =
    rw (addresses_at-insert m k k (addresses_at k m ++ xs), (==_iff k k).1 refl) refl

extend_keep :
    (m : Addresses) (k acct : AccountRef) (xs : List Address) (a : Address)
    → HasAddress m acct a
    → HasAddress (extend m k xs) acct a
extend_keep m k acct xs a h = elim (Bool-cases (k == acct)) [
  | inl e ↦
      let same : k ≡ acct = (==_iff k acct).0 e in
      subst (λ c. HasAddress m c a → HasAddress (extend m k xs) c a) same
        (λ has. rw (extend_self m k xs) (mem-append_left xs has)) h
  | inr ne ↦ rw (addresses_at-insert m k acct (addresses_at k m ++ xs), ne) h
]

merge_addresses_keep :
    (m new : Addresses) (acct : AccountRef) (a : Address)
    → HasAddress m acct a
    → HasAddress (merge_addresses m new) acct a
unfolding merge_addresses
merge_addresses_keep m [] acct a h = h
merge_addresses_keep m ((k, xs) ∷ rest) acct a h =
    merge_addresses_keep (extend m k xs) rest acct a (extend_keep m k acct xs a h)

none_listed : (acct : AccountRef) (a : Address) → ¬ HasAddress [] acct a
unfolding lookup
none_listed acct a h = not-mem-nil h

merge_addresses_add :
    (m new : Addresses) (acct : AccountRef) (a : Address)
    → HasAddress new acct a
    → HasAddress (merge_addresses m new) acct a
unfolding merge_addresses
merge_addresses_add m [] acct a h = absurd (none_listed acct a h)
merge_addresses_add m ((k, xs) ∷ rest) acct a h = elim (Bool-cases (k == acct)) [
  | inl e ↦
      let same : k ≡ acct = (==_iff k acct).0 e in
      let here : Mem a xs = rw (addresses_at-cons k acct xs rest, e) at h in
      merge_addresses_keep (extend m k xs) rest acct a (
        subst (λ c. HasAddress (extend m k xs) c a) same
          (rw (extend_self m k xs) (mem-append_right (addresses_at k m) here)))
  | inr ne ↦
      merge_addresses_add (extend m k xs) rest acct a
        (rw (addresses_at-cons k acct xs rest, ne) at h)
]

keys-insert : (op : OutPoint) (m : Map OutPoint (Unit {0})) → Mem op (keys (insert op tt m))
unfolding insert
keys-insert op [] = mem-cons_self
keys-insert op ((k, v) ∷ m) = elim (Bool-cases (eqb_out_point k op)) [
  | inl e ↦ rw e mem-cons_self
  | inr ne ↦ rw ne (mem-cons_of_mem _ (keys-insert op m))
]

keys-insert_keep :
    (op k : OutPoint) (m : Map OutPoint (Unit {0}))
    → Mem op (keys m)
    → Mem op (keys (insert k tt m))
unfolding insert
keys-insert_keep op k [] h = absurd (not-mem-nil h)
keys-insert_keep op k ((j, v) ∷ m) h = elim (Bool-cases (eqb_out_point j k)) [
  | inl e ↦ rw (e, ← (eqb_out_point_iff j k).0 e) h
  | inr ne ↦ rw ne (
      Or.elim Mem-prop (mem-cons.0 h) (λ p. mem-cons.1 (Or.inl p))
        (λ rest. mem-cons_of_mem _ (keys-insert_keep op k m rest)))
]

merge_outpoints_keep :
    (op : OutPoint) (m : Map OutPoint (Unit {0})) (ops : List OutPoint)
    → Mem op (keys m)
    → Mem op (keys (merge_outpoints m ops))
unfolding merge_outpoints
merge_outpoints_keep op m [] h = h
merge_outpoints_keep op m (k ∷ ops) h =
    merge_outpoints_keep op (insert k tt m) ops (keys-insert_keep op k m h)

merge_outpoints_add :
    (op : OutPoint) (m : Map OutPoint (Unit {0})) (ops : List OutPoint)
    → Mem op ops
    → Mem op (keys (merge_outpoints m ops))
unfolding merge_outpoints
merge_outpoints_add op m [] h = absurd (not-mem-nil h)
merge_outpoints_add op m (k ∷ ops) h =
    Or.elim Mem-prop (mem-cons.0 h)
      (λ (e : op ≡ k). merge_outpoints_keep op (insert k tt m) ops (rw e (keys-insert k m)))
      (λ rest. merge_outpoints_add op (insert k tt m) ops rest)

abbrev pub IsHeight : ℤ → Type 0
IsHeight z = pos 0 ≤ℤ z

-- A merged batch asks for what the job asks for.
pub merge-Includes :
    (b : RescanBatch) (j : RescanJob) → IsHeight j.start_height → Includes (batch_job (merge b j)) j
unfolding merge batch_job
merge-Includes b j h = record {
  addresses = λ acct a. merge_addresses_add b.addrs j.addresses acct a;
  out_points = λ op. merge_outpoints_add op b.outpoints j.out_points;
  from = ground arith;
}

-- It still asks for what it asked for before.
pub merge_keeps :
    (b : RescanBatch) (j k : RescanJob)
    → IsHeight b.height
    → IsHeight j.start_height
    → Includes (batch_job b) k
    → Includes (batch_job (merge b j)) k
unfolding merge batch_job
merge_keeps b j k hb h inc = record {
  addresses =
      λ acct a has. merge_addresses_keep b.addrs j.addresses acct a (inc.addresses acct a has);
  out_points = λ op has. merge_outpoints_keep op b.outpoints j.out_points (inc.out_points op has);
  from = let lower = inc.from in ground arith;
}

no_accounts-insert :
    (m : Addresses) (k : AccountRef) (xs : List Address) → no_accounts (insert k xs m) ≡ false
unfolding insert
no_accounts-insert [] k xs = refl
no_accounts-insert ((j, ys) ∷ m) k xs = ground arith

merge_addresses_nonempty :
    (m new : Addresses)
    → (no_accounts m ≡ false) ⊎ (no_accounts new ≡ false)
    → no_accounts (merge_addresses m new) ≡ false
unfolding merge_addresses
merge_addresses_nonempty m [] (inl h) = h
merge_addresses_nonempty m [] (inr h) = absurd (cc)
merge_addresses_nonempty m ((k, xs) ∷ rest) h =
    merge_addresses_nonempty (extend m k xs) rest
      (inl (no_accounts-insert m k (addresses_at k m ++ xs)))

-- A batch stays nonempty, and a job with accounts makes it so.
pub merge_nonempty :
    (b : RescanBatch) (j : RescanJob)
    → (empty b ≡ false) ⊎ (no_accounts j.addresses ≡ false)
    → empty (merge b j) ≡ false
unfolding merge
merge_nonempty b j h = merge_addresses_nonempty b.addrs j.addresses h

-- Two jobs that are merged ask for what each of them asks for.
pub merge_job-Includes : (j k : RescanJob) → Includes (merge_job j k) j × Includes (merge_job j k) k
unfolding merge_job
merge_job-Includes j k = (
  record {
    addresses = λ acct a. merge_addresses_keep j.addresses k.addresses acct a;
    out_points = λ op h. mem-append_left k.out_points h;
    from = ground arith;
  },
  record {
    addresses = λ acct a. merge_addresses_add j.addresses k.addresses acct a;
    out_points = λ op h. mem-append_right j.out_points h;
    from = ground arith;
  },
)
