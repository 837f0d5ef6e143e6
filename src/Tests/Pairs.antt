-- ===== src/Tests/Pairs.antt =====
-- The making of a transaction at concrete coins.
use btcwallet.Prelude.{ℕ, ◌≡◌, refl, Bool, true, false, some, List, [], ◌∷◌, arith, All}
use btcwallet.Prelude.Int.{ℤ, pos, ◌≤ℤ◌, wrap64, wrap32, ◌+ℤ◌, ◌-ℤ◌, ◌*ℤ◌}
use btcwallet.TxStore.Types.{OutPoint}
use btcwallet.TxStore.Query.{confirmed}
use btcwallet.CreateTx.{select_inputs, select_loop, minimum_fee}
use btcwallet.CreateTx.Select.{total}
use btcwallet.CreateTx.Pairs.{
  Made, made, Coin, coin_amount, Calls, Settings, CreatedTx, key, valid, tx_to_pairs, start_pairs,
  sum_amounts, make_outputs, eligible_coins, filter_eligible, is_eligible, fee_loop, try_fee,
  spend_inputs, add_change, swap, get_change_address, finish_round, needed_fee, sign_each,
  sign_input, sign_for, sign_by_key, set_script, unsigned, validate, allow_free,
}
use btcwallet.CreateTx.Pairs.Rounds.{IsSane, IsPaidBy}
use btcwallet.CreateTx.Pairs.Start.{IsSorting}
use btcwallet.CreateTx.Pairs.Balance.{MaySpend, tx_to_pairs_paid}
use btcwallet.CreateTx.Pairs.Enough.{tx_to_pairs_ends}

-- A key store of one key, which is not locked; a script is its address.
abbrev pub small_calls : Calls
small_calls = record {
  Keys = Unit {0};
  Address = List ℕ;
  Info = Unit {0};
  PrivKey = Unit {0};
  is_locked = λ k. false;
  change_address = λ k. (some (b'c' ∷ []), k);
  find_address = λ k a. some tt;
  priv_key = λ i. key tt;
  compressed = λ i. true;
  decode_address = λ a. some a;
  pay_to_addr_script = λ a. some a;
  is_pub_key_hash_script = λ s. true;
  script_addresses = λ s. s ∷ [];
  is_pub_key_hash = λ a. true;
  signature_script = λ tx i s k c. some (b's' ∷ []);
  check_script = λ tx i s p. valid;
  serialize_size = λ tx. 250;
  exceeds = λ w n. false;
  random_index = λ n. 0;
  sort_reverse = λ cs. cs;
}

abbrev pub settings : Settings
settings = record {
  limits = record { satoshi_per_bitcent = 1000000; max_satoshi = 2100000000000000 };
  fee_increment = pos 10000;
  disallow_free = false;
  maturity = pos 100;
}

settings-IsSane : IsSane settings
settings-IsSane = record { nonneg = omega arith; capped = omega arith }

pub sorting : IsSorting small_calls.sort_reverse
sorting = record { same_total = λ cs. refl; same_coins = λ P cs h. h }

abbrev big_coin : Coin
big_coin = record {
  value = pos 90000;
  height = pos 300000;
  coinbase = false;
  out_point = record { hash = 7; index = 0 };
  pk_script = b'k' ∷ [];
}

abbrev pub one_coin : List Coin
one_coin = big_coin ∷ []

one_coin-All : All (λ c. pos 0 ≤ℤ coin_amount c) one_coin
one_coin-All = (omega arith, tt)

abbrev unlocked : OutPoint → Bool
unlocked o = false

abbrev pub payment : List ℕ × ℤ
payment = (b'p' ∷ [], pos 50000)

-- The coin pays 50000, the fee of 10000 and the change, which stands first.
abbrev pub paid_tx : CreatedTx (List ℕ)
paid_tx = record {
  tx = record {
    tx_in = record { previous = big_coin.out_point; signature_script = b's' ∷ [] } ∷ [];
    tx_out =
        record { value = pos 30000; pk_script = b'c' ∷ [] }
        ∷ record { value = pos 50000; pk_script = b'p' ∷ [] }
        ∷ [];
  };
  inputs = one_coin;
  change_addr = some (b'c' ∷ []);
}

payment_made :
    tx_to_pairs small_calls settings 5
      (payment ∷ [])
      (pos 1)
      unlocked
      (some (pos 300005))
      (some one_coin)
      tt
    ≡ some (made paid_tx, tt)
unfolding tx_to_pairs start_pairs sum_amounts make_outputs eligible_coins filter_eligible
    is_eligible fee_loop try_fee spend_inputs add_change swap get_change_address finish_round
    needed_fee sign_each sign_input sign_for sign_by_key set_script unsigned validate confirmed
    select_inputs select_loop minimum_fee allow_free wrap64 wrap32 ◌+ℤ◌ ◌-ℤ◌ ◌*ℤ◌
payment_made = refl

tx_to_pairs_paid_example :
    (fee : ℤ) × IsPaidBy small_calls settings settings-IsSane (pos 300005) paid_tx.tx one_coin fee
    × All
        (MaySpend small_calls settings settings-IsSane sorting (pos 1) unlocked (pos 300005))
        one_coin
unfolding total ◌+ℤ◌
tx_to_pairs_paid_example =
    tx_to_pairs_paid small_calls settings settings-IsSane sorting (pos 1) unlocked (pos 300005) 5
      payment [] one_coin tt tt paid_tx one_coin-All (omega arith) (omega arith) payment_made

tx_to_pairs_ends_example :
    (r : Made (CreatedTx (List ℕ)) × Unit {0}) × (tx_to_pairs small_calls settings 90002
        (payment ∷ [])
        (pos 1)
        unlocked
        (some (pos 300005))
        (some one_coin)
        tt
      ≡ some r)
unfolding total ◌+ℤ◌
tx_to_pairs_ends_example =
    tx_to_pairs_ends small_calls settings settings-IsSane sorting (pos 1) unlocked (pos 300005)
      90002 payment [] one_coin tt one_coin-All (omega arith) (omega arith) (omega arith)
