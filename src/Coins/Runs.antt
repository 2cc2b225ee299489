-- ===== src/Coins/Runs.antt =====
-- A wallet with three WAL coins, and the theorem of pytusk/core/ops/coins.py there.
use mathlib.Core.List.{Perm}
use pytusk.Prelude.{ℕ, ◌≡◌, refl, String, none, some, List, [], ◌∷◌}
use pytusk.Errors.{ok}
use pytusk.Coins.{
  Coin, Wallet, wal_balance_and_decimals, wal_coin_type_of, wal_entry, matches_wal_coin_type,
  largest_first, merge_coins, split_coin, split_result, place_by_balance, prepared, exact_match,
  split_or_merge, merge_from, prepare_wal_coin_for_amount,
}
use pytusk.Coins.Payment.{Pays, HeadLargest, prepare_wal_coin_for_amount-Pays}

abbrev coin : String → ℕ → Coin
coin coin_id balance = record { coin_id = coin_id; reported = some balance }

abbrev coins : List Coin
coins = coin "a" 3 ∷ coin "b" 9 ∷ coin "c" 5 ∷ coin "d" 3 ∷ []

abbrev wallet : Wallet
wallet = record {
  wal_coin_type = "";
  coin_balances = λ owner. some ("0x2::sui::SUI" ∷ "0x8::wal::WAL" ∷ []);
  coin_metadata = λ coin_type. some (some 9);
  get_coins = λ owner coin_type. some coins;
  get_object = λ coin_id. none;
}

typed : wal_balance_and_decimals wallet "0x1" ≡ ok ("0x8::wal::WAL", 9)
unfolding wal_balance_and_decimals wal_coin_type_of wal_entry matches_wal_coin_type
typed = refl

-- 12 is more than the largest coin, and the next one is enough.
paid :
    prepare_wal_coin_for_amount wallet "0x1" 12
    ≡ ok (record {
      commands = merge_coins "b" ("c" ∷ []) ∷ split_coin "b" 12 ∷ [];
      argument = split_result;
    })
unfolding prepare_wal_coin_for_amount wal_balance_and_decimals wal_coin_type_of wal_entry
    matches_wal_coin_type largest_first place_by_balance prepared exact_match split_or_merge
    merge_from
paid = refl

prepare_wal_coin_for_amount-Pays_example :
    Pays 12 (largest_first coins) (prepare_wal_coin_for_amount wallet "0x1" 12)
    × Perm (largest_first coins) coins
    × HeadLargest (largest_first coins)
prepare_wal_coin_for_amount-Pays_example =
    prepare_wal_coin_for_amount-Pays wallet "0x1" 12 typed refl
