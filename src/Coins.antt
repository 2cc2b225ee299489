-- ===== src/Coins.antt =====
-- pytusk/core/ops/coins.py and pytusk/core/chain/coin_types.py. What the chain answers is the record
-- `Wallet`: `none` is a result that is not ok. A coin without a balance has 0.
pub mod Payment
mod Runs
use Prim.Native.String.{len, ◌++◌ as text_append}
use text.Mathlib.Text.{find?, ◌==◌ as str_eq}
use pytusk.Prelude.{
  ℕ, zero, ◌+◌, String, Bool, true, false, ◌&&◌, not, Option, none, some, List, [], ◌∷◌, map, ltb,
  leb, ◌==◌, if◌then◌else◌,
}
use pytusk.Prelude.Orders.{sum_by}
use pytusk.Errors.{Result, ok, err, runtime_error, raise_if, ◌>>=◌, ◌>>◌}

pub record Coin : Type 0 where
  pub coin_id : String
  pub reported : Option ℕ

-- GetObject: the owner's address and the balance, if there are any.
pub record CoinObject : Type 0 where
  pub owner_address : Option String
  pub object_balance : Option ℕ

-- The coin types of the owner's balances, the decimals of a coin type's metadata, the coins of a type,
-- and a coin object; with the coin type that the configuration pins, or "".
pub record Wallet : Type 0 where
  pub wal_coin_type : String
  pub coin_balances : String → Option (List String)
  pub coin_metadata : String → Option (Option ℕ)
  pub get_coins : String → String → Option (List Coin)
  pub get_object : String → Option CoinObject

-- coin.balance or 0
abbrev pub or_zero : Option ℕ → ℕ
or_zero none = 0
or_zero (some n) = n

abbrev pub balance_of : Coin → ℕ
balance_of coin = or_zero coin.reported

abbrev pub coin_id_of : Coin → String
coin_id_of coin = coin.coin_id

abbrev pub is_in : String → String → Bool
is_in part text = elim (find? text part) [ none ↦ false | some place ↦ true ]

unfoldable pub matches_wal_coin_type : String → String → Bool
matches_wal_coin_type coin_type wal_coin_type =
    if len wal_coin_type == 0 then is_in "::wal::WAL" coin_type else str_eq coin_type wal_coin_type

-- The commands that are added to a transaction, and the coin that it then pays with.
pub data CoinCommand : Type 0 where
  merge_coins : String → List String → CoinCommand
  split_coin : String → ℕ → CoinCommand

pub data CoinArgument : Type 0 where
  whole_coin : String → CoinArgument
  split_result : CoinArgument

pub record PreparedCoin : Type 0 where
  pub commands : List CoinCommand
  pub argument : CoinArgument

abbrev pub or_error {ℓ} : {A : Type ℓ} → Option A → Result A
or_error none = err runtime_error
or_error (some a) = ok a

-- sorted(coins, key=balance, reverse=True), which is stable.
unfoldable pub place_by_balance : Coin → List Coin → List Coin
place_by_balance c [] = c ∷ []
place_by_balance c (d ∷ ds) =
    let later = place_by_balance c ds in
    if leb (balance_of d) (balance_of c) then c ∷ d ∷ ds else d ∷ later

unfoldable pub largest_first : List Coin → List Coin
unfolding place_by_balance
largest_first [] = []
largest_first (c ∷ cs) = place_by_balance c (largest_first cs)

unfoldable pub exact_match : ℕ → List Coin → Option Coin
exact_match amount [] = none
exact_match amount (c ∷ cs) =
    let later = exact_match amount cs in if balance_of c == amount then some c else later

-- The loop over coins[1:], with the running balance.
unfoldable pub merge_from : ℕ → ℕ → List Coin → List String
merge_from amount running_balance [] = []
merge_from amount running_balance (c ∷ cs) =
    let later = merge_from amount (running_balance + balance_of c) cs in
    if leb amount running_balance then [] else c.coin_id ∷ later

-- The choice among_owners the sorted coins, of which `primary` is the first.
unfoldable pub split_or_merge : ℕ → Coin → List Coin → PreparedCoin
unfolding merge_from
split_or_merge amount primary rest =
    if ltb amount (balance_of primary)
    then record { commands = split_coin primary.coin_id amount ∷ []; argument = split_result }
    else record {
      commands =
          merge_coins primary.coin_id (merge_from amount (balance_of primary) rest)
          ∷ split_coin primary.coin_id amount
          ∷ [];
      argument = split_result;
    }

unfoldable pub prepared : ℕ → List Coin → Result PreparedCoin
unfolding split_or_merge exact_match
prepared amount [] = err runtime_error
prepared amount (primary ∷ rest) =
    if ltb (sum_by balance_of (primary ∷ rest)) amount
    then err runtime_error
    else elim (exact_match amount (primary ∷ rest)) [
      | some coin ↦ ok (record { commands = []; argument = whole_coin (coin.coin_id) })
      | none ↦ ok (split_or_merge amount primary rest)
    ]

-- The first coin type that is WAL.
unfoldable pub wal_entry : String → List String → Option String
wal_entry wal_coin_type [] = none
wal_entry wal_coin_type (t ∷ ts) =
    let later = wal_entry wal_coin_type ts in
    if not (len t == 0) && matches_wal_coin_type t wal_coin_type then some t else later

abbrev pub first_coin : List Coin → Result String
first_coin [] = err runtime_error
first_coin (c ∷ cs) = ok (c.coin_id)

abbrev pub among_owners : String → List String → Bool
among_owners a [] = false
among_owners a (b ∷ bs) = if str_eq a b then true else among_owners a bs

module _ (wallet : Wallet) where
  unfoldable pub wal_coin_type_of : String → Result String
  wal_coin_type_of owner = do
    balances ← or_error (wallet.coin_balances owner)
    or_error (wal_entry wallet.wal_coin_type balances)

  unfoldable pub wal_balance_and_decimals : String → Result (String × ℕ)
  unfolding wal_coin_type_of
  wal_balance_and_decimals owner = do
    coin_type ← wal_coin_type_of owner
    metadata ← or_error (wallet.coin_metadata coin_type)
    decimals ← or_error metadata
    ok (coin_type, decimals)

  -- f"0x2::coin::Coin<{coin_type}>"
  unfoldable pub coin_object_type : String → String
  coin_object_type coin_type = text_append (text_append "0x2::coin::Coin<" coin_type) ">"

  unfoldable pub select_wal_payment_coin : String → Result String
  unfolding wal_coin_type_of largest_first coin_object_type
  select_wal_payment_coin owner = do
    coin_type ← wal_coin_type_of owner
    coins ← or_error (wallet.get_coins owner (coin_object_type coin_type))
    first_coin (largest_first coins)

  unfoldable pub assert_coin_usable : String → List String → ℕ → Result (Unit {0})
  assert_coin_usable coin_id owners minimum_balance = do
    obj ← or_error (wallet.get_object coin_id)
    owner ← or_error (obj.owner_address)
    raise_if (not (among_owners owner owners)) runtime_error
    balance ← or_error (obj.object_balance)
    raise_if (ltb balance minimum_balance) runtime_error

  unfoldable pub prepare_wal_coin_for_amount : String → ℕ → Result PreparedCoin
  unfolding wal_balance_and_decimals largest_first prepared coin_object_type
  prepare_wal_coin_for_amount owner amount = do
    (coin_type, decimals) ← wal_balance_and_decimals owner
    coins ← or_error (wallet.get_coins owner (coin_object_type coin_type))
    prepared amount (largest_first coins)
