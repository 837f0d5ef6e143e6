-- ===== src/CreateTx/Pairs.antt =====
-- The making of a signed transaction (txToPairs and allowFree of createtx.go).
pub mod Outputs
pub mod Signing
pub mod Amounts
pub mod Rounds
pub mod Start
pub mod Balance
pub mod Inputs
pub mod Enough
use btcwallet.Prelude.{
  ℕ, zero, suc, ◌+◌, Bool, true, false, not, Option, none, some, List, [], ◌∷◌, ◌++◌, map, set,
  get_elem?, length, if◌then◌else◌,
}
use btcwallet.Prelude.Int.{ℤ, pos, leb_ℤ, ltb_ℤ, ◌+ℤ◌, ◌-ℤ◌, ◌*ℤ◌, wrap64}
use btcwallet.TxStore.Types.{OutPoint, TxOut}
use btcwallet.TxStore.Query.{confirmed}
use btcwallet.CreateTx.{
  select_inputs, Selection, selected, insufficient_funds, Limits, minimum_fee, chain_depth,
}

-- The errors of `txToPairs`.
pub data TxError : Type 0 where
  locked non_positive_amount bad_address bad_script no_client no_unspent : TxError
  not_enough : ℤ → ℤ → ℤ → TxError
  no_change_address no_address_info no_key no_sigscript no_engine invalid_tx : TxError

pub data Made {ℓ} (A : Type ℓ) : Type ℓ where
  made : A → Made A
  refused : TxError → Made A

abbrev pub then_make : {A B : Type 0} → Made A → (A → Made B) → Made B
then_make (made a) f = f a
then_make (refused e) f = refused e

abbrev pub or_refuse : {A : Type 0} → TxError → Option A → Made A
or_refuse e none = refused e
or_refuse e (some a) = made a

-- A txstore.Credit, by what its methods give: Amount, BlockHeight, IsCoinbase, OutPoint and the
-- script of TxOut.
pub record Coin : Type 0 where
  pub value : ℤ
  pub height : ℤ
  pub coinbase : Bool
  pub out_point : OutPoint
  pub pk_script : List ℕ

abbrev pub coin_amount : Coin → ℤ
coin_amount c = c.value

pub record TxIn : Type 0 where
  pub previous : OutPoint
  pub signature_script : List ℕ

-- The btcwire.MsgTx that is made.
pub record NewTx : Type 0 where
  pub tx_in : List TxIn
  pub tx_out : List TxOut

pub data KeyResult (K : Type 0) : Type 0 where
  key : K → KeyResult K
  key_locked key_failed : KeyResult K

pub data ScriptCheck : Type 0 where
  valid engine_failed script_failed : ScriptCheck

-- What `txToPairs` calls: the key store (of the type `Keys`), the packages btcutil, btcscript,
-- btcwire and sort, and the random number that places the change. `exceeds w n` is the
-- floating-point test of allowFree whether w / n is above the threshold.
pub record Calls : Type 1 where
  pub Keys : Type 0
  pub Address : Type 0
  pub Info : Type 0
  pub PrivKey : Type 0
  pub is_locked : Keys → Bool
  pub change_address : Keys → Option Address × Keys
  pub find_address : Keys → Address → Option Info
  pub priv_key : Info → KeyResult PrivKey
  pub compressed : Info → Bool
  pub decode_address : List ℕ → Option Address
  pub pay_to_addr_script : Address → Option (List ℕ)
  pub is_pub_key_hash_script : List ℕ → Bool
  pub script_addresses : List ℕ → List Address
  pub is_pub_key_hash : Address → Bool
  pub signature_script : NewTx → ℕ → List ℕ → PrivKey → Bool → Option (List ℕ)
  pub check_script : NewTx → ℕ → List ℕ → List ℕ → ScriptCheck
  pub serialize_size : NewTx → ℕ
  pub exceeds : ℤ → ℕ → Bool
  pub random_index : ℕ → ℕ
  pub sort_reverse : List Coin → List Coin

-- The settings: the fee increment of the account, `cfg.DisallowFree`, and the constants of
-- btcutil and btcchain.
pub record Settings : Type 0 where
  pub limits : Limits
  pub fee_increment : ℤ
  pub disallow_free : Bool
  pub maturity : ℤ

-- The sum over the pairs, which are an address and an amount each.
unfoldable pub sum_amounts : ℤ → List (List ℕ × ℤ) → Made ℤ
sum_amounts amt [] = made amt
sum_amounts amt ((addr, v) ∷ pairs) =
    let rest = sum_amounts (wrap64 (amt +ℤ v)) pairs in
    if leb_ℤ v (pos 0) then refused non_positive_amount else rest

-- Whether an unspent output may be spent, at a chain height.
unfoldable pub is_eligible : (List ℕ → Bool) → (OutPoint → Bool) → ℤ → ℤ → ℤ → Coin → Bool
is_eligible is_p2pkh is_locked_outpoint maturity minconf height c =
    if not (is_p2pkh c.pk_script)
    then false
    else if not (confirmed minconf c.height height)
    then false
    else if (if c.coinbase then not (confirmed maturity c.height height) else false)
    then false
    else not (is_locked_outpoint c.out_point)

-- The loop that filters the unspent outputs.
unfoldable pub filter_eligible : (Coin → Bool) → List Coin → List Coin
filter_eligible ok [] = []
filter_eligible ok (c ∷ cs) = if ok c then c ∷ filter_eligible ok cs else filter_eligible ok cs

-- The loop of `allowFree`.
unfoldable pub weighted_sum : ℤ → ℤ → List Coin → ℤ
weighted_sum cur_height acc [] = acc
weighted_sum cur_height acc (c ∷ cs) =
    weighted_sum cur_height (wrap64 (acc +ℤ wrap64 (c.value *ℤ chain_depth c.height cur_height))) cs

-- `xs[i], xs[j] = xs[j], xs[i]`; both indexes are in range where it is used.
unfoldable pub swap {ℓ} : {A : Type ℓ} → List A → ℕ → ℕ → List A
swap xs i j = elim (get_elem? xs i) [
  | none ↦ xs
  | some x ↦ elim (get_elem? xs j) [ none ↦ xs | some y ↦ set (set xs i y) j x ]
]

-- The inputs of a transaction before they are signed.
unfoldable pub unsigned : List Coin → List TxIn
unsigned [] = []
unsigned (c ∷ cs) = record { previous = c.out_point; signature_script = [] } ∷ unsigned cs

-- `msgtx.TxIn[i].SignatureScript = script`
unfoldable pub set_script : NewTx → ℕ → List ℕ → NewTx
set_script tx i script = elim (get_elem? tx.tx_in i) [
  | none ↦ tx
  | some input ↦ record tx { tx_in = set tx.tx_in i (record input { signature_script = script }) }
]

-- One round of the search for the fee: an error, a higher fee to try, or the transaction with its
-- inputs.
pub data Round : Type 0 where
  stopped : TxError → Round
  again : ℤ → Round
  finished : NewTx → List Coin → Round

pub record CreatedTx (A : Type 0) : Type 0 where
  pub tx : NewTx
  pub inputs : List Coin
  pub change_addr : Option A

module _ (calls : Calls) (settings : Settings) where
  open calls use {Keys, Address, PrivKey}

  -- The outputs for the pairs.
  unfoldable pub make_outputs : List (List ℕ × ℤ) → Made (List TxOut)
  make_outputs [] = made []
  make_outputs ((addr, v) ∷ pairs) =
      then_make (or_refuse bad_address (calls.decode_address addr)) λ a.
        then_make (or_refuse bad_script (calls.pay_to_addr_script a)) λ script.
          then_make (make_outputs pairs)
            λ outs. made (record { value = v; pk_script = script } ∷ outs)

  -- `allowFree`
  unfoldable pub allow_free : ℤ → List Coin → ℕ → Bool
  allow_free cur_height inputs size = calls.exceeds (weighted_sum cur_height (pos 0) inputs) size

  -- The signature of one input by what PrivKey gives.
  unfoldable pub sign_by_key : NewTx → ℕ → Coin → Bool → KeyResult PrivKey → Made NewTx
  sign_by_key tx i c compressed key_locked = refused locked
  sign_by_key tx i c compressed key_failed = refused no_key
  sign_by_key tx i c compressed (key k) =
      then_make (or_refuse no_sigscript (calls.signature_script tx i c.pk_script k compressed))
        λ script. made (set_script tx i script)

  -- An input whose script has not one public key's address is left unsigned.
  unfoldable pub sign_for : Keys → NewTx → ℕ → Coin → List Address → Made NewTx
  sign_for keys tx i c [] = made tx
  sign_for keys tx i c (a ∷ []) =
      if calls.is_pub_key_hash a
      then (then_make (or_refuse no_address_info (calls.find_address keys a))
          λ info. sign_by_key tx i c (calls.compressed info) (calls.priv_key info))
      else made tx
  sign_for keys tx i c (a ∷ b ∷ more) = made tx

  unfoldable pub sign_input : Keys → NewTx → ℕ → Coin → Made NewTx
  sign_input keys tx i c = sign_for keys tx i c (calls.script_addresses c.pk_script)

  unfoldable pub sign_each : Keys → NewTx → ℕ → List Coin → Made NewTx
  sign_each keys tx i [] = made tx
  sign_each keys tx i (c ∷ cs) =
      then_make (sign_input keys tx i c) λ signed. sign_each keys signed (suc i) cs

  -- The fee that the transaction needs.
  unfoldable pub needed_fee : ℤ → NewTx → List Coin → ℤ
  needed_fee height tx inputs =
      let size = calls.serialize_size tx in
      let free = if settings.disallow_free then false else allow_free height inputs size in
      minimum_fee settings.limits settings.fee_increment size (map (λ o. o.value) tx.tx_out) free

  -- The end of a round, from the signing of the inputs on.
  unfoldable pub finish_round : ℤ → ℤ → List TxOut → List Coin → Keys → Round
  finish_round height fee outs inputs keys =
      elim (sign_each keys (record { tx_in = unsigned inputs; tx_out = outs }) 0 inputs) [
        | refused e ↦ stopped e
        | made tx ↦
            let fee' = needed_fee height tx inputs in
            if ltb_ℤ fee fee' then again fee' else finished tx inputs
      ]

  -- The change address, which is reused if there is one already.
  unfoldable pub get_change_address : Option Address → Keys → Option Address × Keys
  get_change_address none keys = calls.change_address keys
  get_change_address (some a) keys = (some a, keys)

  -- The outputs with the change at a random place.
  unfoldable pub add_change : ℤ → List ℕ → List TxOut → List TxOut
  add_change change script outs =
      let outs' = outs ++ (record { value = change; pk_script = script } ∷ []) in
      swap outs' (calls.random_index (length outs')) (length outs)

  -- A round from the selected inputs on.
  unfoldable pub spend_inputs :
      ℤ → ℤ → ℤ → List TxOut → List Coin → Option Address → Keys → Round × Option Address × Keys
  spend_inputs height fee change outs inputs change_addr keys =
      if ltb_ℤ (pos 0) change
      then (let (addr, keys') = get_change_address change_addr keys in
          elim addr [
            | none ↦ (stopped no_change_address, none, keys')
            | some a ↦ elim (calls.pay_to_addr_script a) [
              | none ↦ (stopped bad_script, some a, keys')
              | some script ↦ (
                finish_round height fee (add_change change script outs) inputs keys',
                some a,
                keys',
              )
            ]
          ])
      else (finish_round height fee outs inputs keys, change_addr, keys)

  -- One round of the loop for the fee.
  unfoldable pub try_fee :
      ℤ → ℤ → List TxOut → List Coin → ℤ → Option Address → Keys → Round × Option Address × Keys
  try_fee height amt outs eligible fee change_addr keys =
      elim (select_inputs coin_amount eligible amt fee) [
        | insufficient_funds i o f ↦ (stopped (not_enough i o f), change_addr, keys)
        | selected inputs btcin ↦
            spend_inputs height fee (wrap64 (wrap64 (btcin -ℤ amt) -ℤ fee)) outs inputs change_addr
              keys
      ]

  -- The loop for the fee, on fuel.
  unfoldable pub fee_loop :
      ℕ
      → ℤ
      → ℤ
      → List TxOut
      → List Coin
      → ℤ
      → Option Address
      → Keys
      → Option (Made (CreatedTx Address) × Keys)
  fee_loop zero height amt outs eligible fee change_addr keys = none
  fee_loop (suc fuel) height amt outs eligible fee change_addr keys =
      let (r, addr, keys') = try_fee height amt outs eligible fee change_addr keys in
      elim r [
        | stopped e ↦ some (refused e, keys')
        | again fee' ↦ fee_loop fuel height amt outs eligible fee' addr keys'
        | finished tx inputs ↦
            some (made (record { tx = tx; inputs = inputs; change_addr = addr }), keys')
      ]

  -- The validation of each input by the script engine.
  unfoldable pub validate : NewTx → ℕ → List TxIn → List Coin → Made (Unit {0})
  validate tx i [] inputs = made tt
  validate tx i (t ∷ ts) [] = made tt
  validate tx i (t ∷ ts) (c ∷ cs) = elim (calls.check_script tx i t.signature_script c.pk_script) [
    | engine_failed ↦ refused no_engine
    | script_failed ↦ refused invalid_tx
    | valid ↦ validate tx (suc i) ts cs
  ]

  abbrev pub validated : Made (CreatedTx Address) → Made (CreatedTx Address)
  validated (refused e) = refused e
  validated (made c) = then_make (validate c.tx 0 c.tx.tx_in c.inputs) λ _. made c

  -- The unspent outputs that may be spent, the largest first.
  unfoldable pub eligible_coins : ℤ → (OutPoint → Bool) → ℤ → List Coin → List Coin
  eligible_coins minconf locked_outpoint height coins = calls.sort_reverse (
      filter_eligible
        (is_eligible calls.is_pub_key_hash_script locked_outpoint settings.maturity minconf height)
        coins)

  -- `txToPairs` up to its filter: the amount, the outputs, the chain height and the unspent outputs.
  unfoldable pub start_pairs :
      List (List ℕ × ℤ)
      → Option ℤ
      → Option (List Coin)
      → Keys
      → Made (ℤ × List TxOut × ℤ × List Coin)
  start_pairs pairs block_height unspent keys =
      if calls.is_locked keys
      then refused locked
      else then_make (sum_amounts (pos 0) pairs) λ amt. then_make (make_outputs pairs) λ outs.
        then_make (or_refuse no_client block_height) λ height.
          then_make (or_refuse no_unspent unspent) λ coins. made (amt, outs, height, coins)

  -- `txToPairs`; `block_height` is that of the client's block stamp, and `unspent` the result of
  -- UnspentOutputs.
  unfoldable pub tx_to_pairs :
      ℕ
      → List (List ℕ × ℤ)
      → ℤ
      → (OutPoint → Bool)
      → Option ℤ
      → Option (List Coin)
      → Keys
      → Option (Made (CreatedTx Address) × Keys)
  tx_to_pairs fuel pairs minconf locked_outpoint block_height unspent keys =
      elim (start_pairs pairs block_height unspent keys) [
        | refused e ↦ some (refused e, keys)
        | made (amt, outs, height, coins) ↦
            let eligible = eligible_coins minconf locked_outpoint height coins in
            elim (fee_loop fuel height amt outs eligible (pos 0) none keys) [
              | none ↦ none
              | some r ↦ some (validated r.0, r.1)
            ]
      ]
