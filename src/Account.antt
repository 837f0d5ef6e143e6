-- ===== src/Account.antt =====
-- An account: its locked outpoints, its balances and the use of its addresses (account.go), and
-- the RPC handler LockUnspent (rpcserver.go).
pub mod Locks
pub mod NotSpent
pub mod Used
use btcwallet.Prelude.{
  ℕ, Bool, true, false, ◌&&◌, not, Option, none, some, List, [], ◌∷◌, map, if◌then◌else◌,
}
use btcwallet.Prelude.Int.{ℤ, pos, ◌+ℤ◌, wrap64}
use btcwallet.Prelude.Map.{Map, lookup, insert, erase}
use btcwallet.TxStore.Types.{
  Store, TxHandle, CreditHandle, OutPoint, ShaHash, out_point_eq, Result, ok,
}
use btcwallet.TxStore.Monad.{then_try}
use btcwallet.TxStore.Query.{confirmed, balance, unspent_outputs, fold_try}
use btcwallet.TxStore.Query.Records.{records, credits, change, credit_script}
use btcwallet.TxStore.Spend.{credit_amount}
use btcwallet.Keystore.Address.{Bytes, bytes_equal}

-- The fields of an account, with a key store of any type.
pub record Account (K : Type 0) : Type 0 where
  pub name : Bytes
  pub key_store : K
  pub tx_store : Store
  pub locked : Map OutPoint (Unit {0})
  pub fee_increment : ℤ

abbrev pub default_fee_increment : ℤ
default_fee_increment = pos 10000

-- A btcjson.TransactionInput, whose hash is a string.
pub record TransactionInput : Type 0 where
  pub txid : Bytes
  pub vout : ℕ

-- A btcjson.LockUnspentCmd.
pub record LockUnspentCmd : Type 0 where
  pub unlock : Bool
  pub transactions : List TransactionInput

-- The outpoint of an input, with NewShaHashFromStr as a parameter: the hash may not parse.
unfoldable pub input_outpoint : (Bytes → Option ShaHash) → TransactionInput → Option OutPoint
input_outpoint parse t = elim (parse t.txid) [
  | none ↦ none
  | some h ↦ some (record { hash = h; index = t.vout })
]

-- A credit of TotalReceived.
unfoldable pub tally_credit : ℤ → ℤ → Store → ℤ → CreditHandle → Result ℤ
tally_credit minconf height s amount c = then_try (change s c) λ is_change.
    if is_change
    then ok amount
    else if confirmed minconf c.tx.key.block_height height
    then (then_try (credit_amount c s) λ v. ok (wrap64 (amount +ℤ v)))
    else ok amount

unfoldable pub tally_record : ℤ → ℤ → Store → ℤ → TxHandle → Result ℤ
tally_record minconf height s amount r =
    then_try (credits s r) λ cs. fold_try (tally_credit minconf height s) amount cs

module _ {K : Type 0} where
  unfoldable pub new_account : Bytes → K → Store → Account K
  new_account name keys txs = record {
    name = name;
    key_store = keys;
    tx_store = txs;
    locked = [];
    fee_increment = default_fee_increment;
  }

  -- `LockedOutpoint`
  unfoldable pub locked_outpoint : Account K → OutPoint → Bool
  locked_outpoint a op = elim (lookup op a.locked) [ none ↦ false | some u ↦ true ]

  -- `LockOutpoint`
  unfoldable pub lock_outpoint : OutPoint → Account K → Account K
  lock_outpoint op a = record a { locked = insert op tt a.locked }

  -- `UnlockOutpoint`
  unfoldable pub unlock_outpoint : OutPoint → Account K → Account K
  unlock_outpoint op a = record a { locked = erase op a.locked }

  -- `ResetLockedOutpoints`
  unfoldable pub reset_locked_outpoints : Account K → Account K
  reset_locked_outpoints a = record a { locked = [] }

  -- `LockedOutpoints`, with the printing of a hash as a parameter.
  unfoldable pub locked_outpoints : (ShaHash → Bytes) → Account K → List TransactionInput
  locked_outpoints print a = map (λ e. record { txid = print e.0.hash; vout = e.0.index }) a.locked

  -- The loop of LockUnspent. It gives `false` for a ParseError; what it did before remains.
  unfoldable pub lock_inputs :
      (Bytes → Option ShaHash) → Bool → List TransactionInput → Account K → Bool × Account K
  lock_inputs parse unlock [] a = (true, a)
  lock_inputs parse unlock (t ∷ ts) a = elim (input_outpoint parse t) [
    | none ↦ (false, a)
    | some op ↦
        lock_inputs parse unlock ts (if unlock then unlock_outpoint op a else lock_outpoint op a)
  ]

  -- To unlock no transactions is to unlock all outpoints.
  unfoldable pub lock_transactions :
      (Bytes → Option ShaHash) → Bool → List TransactionInput → Account K → Bool × Account K
  lock_transactions parse true [] a = (true, reset_locked_outpoints a)
  lock_transactions parse false [] a = lock_inputs parse false [] a
  lock_transactions parse unlock (t ∷ ts) a = lock_inputs parse unlock (t ∷ ts) a

  -- `LockUnspent` of the default account.
  unfoldable pub lock_unspent :
      (Bytes → Option ShaHash) → LockUnspentCmd → Account K → Bool × Account K
  lock_unspent parse cmd a = lock_transactions parse cmd.unlock cmd.transactions a

  -- `CalculateBalance`, given btcchain.CoinbaseMaturity. `block_height` is that of the client's block
  -- stamp, and `none` is an error of the client.
  unfoldable pub calculate_balance : ℤ → ℤ → Option ℤ → Account K → Option (Result ℤ)
  calculate_balance maturity minconf none a = none
  calculate_balance maturity minconf (some height) a =
      some (balance minconf height a.tx_store maturity)

  -- `TotalReceived`, with the sort of Records as a parameter.
  unfoldable pub total_received :
      (List TxHandle → List TxHandle) → ℤ → Option ℤ → Account K → Option (Result ℤ)
  total_received sort_by_received minconf none a = none
  total_received sort_by_received minconf (some height) a = some (
      then_try (records sort_by_received a.tx_store)
        λ rs. fold_try (tally_record minconf height a.tx_store) (pos 0) rs)

-- The addresses of a script (btcscript.ExtractPkScriptAddrs, whose errors give none).
module _ {Address : Type 0} (extract : List ℕ → List Address) where
  -- The amount of a credit that pays to just the address with this encoding.
  unfoldable pub add_own : (Address → Bytes) → ℤ → ℤ → Bytes → Store → ℤ → CreditHandle → Result ℤ
  add_own encode_address minconf height addr s bal c =
      if confirmed minconf c.tx.key.block_height height
      then (then_try (credit_script s c) λ script. elim (extract script) [
        | [] ↦ ok bal
        | x ∷ xs ↦ elim xs [
          | [] ↦
              if bytes_equal (encode_address x) addr
              then (then_try (credit_amount c s) λ v. ok (wrap64 (bal +ℤ v)))
              else ok bal
          | y ∷ ys ↦ ok bal
        ]
      ])
      else ok bal

  -- `CalculateAddressBalance`
  unfoldable pub calculate_address_balance :
      {K : Type 0} → (Address → Bytes) → Bytes → ℤ → Option ℤ → Account K → Option (Result ℤ)
  calculate_address_balance encode_address addr minconf none a = none
  calculate_address_balance encode_address addr minconf (some height) a = some (
      then_try (unspent_outputs a.tx_store)
        λ cs. fold_try (add_own encode_address minconf height addr a.tx_store) (pos 0) cs)

  unfoldable pub pays_to : (Address → Bytes) → Bytes → List Address → Bool
  pays_to script_address pk_hash [] = false
  pays_to script_address pk_hash (x ∷ xs) =
      if bytes_equal (script_address x) pk_hash then true else pays_to script_address pk_hash xs

  unfoldable pub credit_pays_to :
      (Address → Bytes) → Bytes → Store → List CreditHandle → Result Bool
  credit_pays_to script_address pk_hash s [] = ok false
  credit_pays_to script_address pk_hash s (c ∷ cs) =
      let rest = credit_pays_to script_address pk_hash s cs in
      then_try (credit_script s c)
        λ script. if pays_to script_address pk_hash (extract script) then ok true else rest

  unfoldable pub record_pays_to : (Address → Bytes) → Bytes → Store → List TxHandle → Result Bool
  record_pays_to script_address pk_hash s [] = ok false
  record_pays_to script_address pk_hash s (r ∷ rs) =
      let rest = record_pays_to script_address pk_hash s rs in
      then_try (credits s r) λ cs.
        then_try (credit_pays_to script_address pk_hash s cs) λ paid. if paid then ok true else rest

  -- `AddressUsed` of the address with this hash.
  unfoldable pub address_used :
      {K : Type 0}
      → (List TxHandle → List TxHandle)
      → (Address → Bytes)
      → Bytes
      → Account K
      → Result Bool
  address_used sort_by_received script_address pk_hash a =
      then_try (records sort_by_received a.tx_store)
        λ rs. record_pays_to script_address pk_hash a.tx_store rs
