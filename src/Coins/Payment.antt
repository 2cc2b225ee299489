-- ===== src/Coins/Payment.antt =====
-- The coin that prepare_wal_coin_for_amount composes (pytusk/core/ops/coins.py).
use mathlib.Core.List.{Perm}
use mathlib.Core.Option.{some-injective}
use mathlib.Core.List.Perm
use native.Mathlib.Nat.{le_trans}
use pytusk.Prelude.{
  ℕ, suc, ◌+◌, ◌≤◌, ◌<◌, ◌≡◌, refl, ap, String, some, List, [], ◌∷◌, ◌++◌, map, get_elem?, ltb, leb,
  ◌==◌, arith, All, Bool-cases, Option-cases, inl, inr,
}
use pytusk.Prelude.Orders.{sum_by}
use pytusk.Errors.{Result, ok, err, runtime_error}
use pytusk.Coins.{
  coin_object_type, Coin, Wallet, balance_of, coin_id_of, merge_coins, split_coin, whole_coin,
  split_result, PreparedCoin, place_by_balance, largest_first, exact_match, merge_from,
  split_or_merge, prepared, wal_balance_and_decimals, prepare_wal_coin_for_amount,
}

abbrev pub total : List Coin → ℕ
total coins = sum_by balance_of coins

-- Each of these coins is needed: what runs up before it is less than the amount.
abbrev pub AreNeeded : ℕ → ℕ → List Coin → Type 0
AreNeeded amount running [] = Unit {0}
AreNeeded amount running (c ∷ cs) =
    (running < amount) × AreNeeded amount (running + balance_of c) cs

-- The transaction pays the amount with these coins, the largest first: with a coin that is worth just
-- this, without a command; or with a part of the largest coin; or with a part of the largest coin after
-- the next ones are merged into it, of which each is needed and which together are worth enough.
pub data Pays (amount : ℕ) (coins : List Coin) : Result PreparedCoin → Type 0 where
  exact :
      (i : ℕ) (coin : Coin)
      → get_elem? coins i ≡ some coin
      → balance_of coin ≡ amount
      → Pays amount coins (ok (record { commands = []; argument = whole_coin (coin.coin_id) }))
  from_largest :
      (largest : Coin) (rest : List Coin)
      → coins ≡ largest ∷ rest
      → amount < balance_of largest
      → Pays amount coins (
          ok
            (record { commands = split_coin largest.coin_id amount ∷ []; argument = split_result }))
  merged :
      (largest : Coin) (taken left : List Coin)
      → coins ≡ largest ∷ (taken ++ left)
      → AreNeeded amount (balance_of largest) taken
      → amount ≤ balance_of largest + total taken
      → Pays amount coins (
          ok (record {
            commands =
                merge_coins largest.coin_id (map coin_id_of taken)
                ∷ split_coin largest.coin_id amount
                ∷ [];
            argument = split_result;
          }))
  too_little : total coins < amount → Pays amount coins (err runtime_error)
  no_coin : coins ≡ [] → Pays amount coins (err runtime_error)

-- Sorting keeps the coins and puts a largest one first.
place-Perm : (c : Coin) (ds : List Coin) → Perm (place_by_balance c ds) (c ∷ ds)
unfolding place_by_balance
place-Perm c [] = Perm.refl (c ∷ [])
place-Perm c (d ∷ ds) = elim (Bool-cases (leb (balance_of d) (balance_of c))) [
  | inl y ↦ rw y (Perm.refl (c ∷ d ∷ ds))
  | inr n ↦ rw n (Perm.trans (Perm.cons d (place-Perm c ds)) (Perm.swap c d ds))
]

largest_first-Perm : (coins : List Coin) → Perm (largest_first coins) coins
unfolding largest_first
largest_first-Perm [] = Perm.refl []
largest_first-Perm (c ∷ cs) =
    Perm.trans (place-Perm c (largest_first cs)) (Perm.cons c (largest_first-Perm cs))

abbrev pub HeadLargest : List Coin → Type 0
HeadLargest [] = Unit {0}
HeadLargest (c ∷ cs) = All (λ d. balance_of d ≤ balance_of c) cs

place-All :
    (b : ℕ) (c : Coin) (ds : List Coin)
    → balance_of c ≤ b
    → All (λ d. balance_of d ≤ b) ds
    → All (λ d. balance_of d ≤ b) (place_by_balance c ds)
unfolding place_by_balance
place-All b c [] le all = (le, tt)
place-All b c (d ∷ ds) le (first, all) = elim (Bool-cases (leb (balance_of d) (balance_of c))) [
  | inl y ↦ rw y (le, (first, all))
  | inr n ↦ rw n (first, place-All b c ds le all)
]

below :
    (a b : ℕ) (ds : List Coin)
    → a ≤ b
    → All (λ d. balance_of d ≤ a) ds
    → All (λ d. balance_of d ≤ b) ds
below a b [] le all = tt
below a b (d ∷ ds) le (first, all) = (le_trans first le, below a b ds le all)

place-HeadLargest :
    (c : Coin) (ds : List Coin) → HeadLargest ds → HeadLargest (place_by_balance c ds)
unfolding place_by_balance
place-HeadLargest c [] is = tt
place-HeadLargest c (d ∷ ds) is = elim (Bool-cases (leb (balance_of d) (balance_of c))) [
  | inl y ↦
      let le : balance_of d ≤ balance_of c = ground arith in
      rw y (le, below (balance_of d) (balance_of c) ds le is)
  | inr n ↦ rw n (place-All (balance_of d) c ds (ground arith) is)
]

largest_first-HeadLargest : (coins : List Coin) → HeadLargest (largest_first coins)
unfolding largest_first
largest_first-HeadLargest [] = tt
largest_first-HeadLargest (c ∷ cs) =
    place-HeadLargest c (largest_first cs) (largest_first-HeadLargest cs)

exact_match-found :
    (amount : ℕ) (coins : List Coin) {coin : Coin}
    → exact_match amount coins ≡ some coin
    → (i : ℕ) × (get_elem? coins i ≡ some coin) × (balance_of coin ≡ amount)
unfolding exact_match
exact_match-found amount [] e = cc
exact_match-found amount (c ∷ cs) {coin} e = elim (Bool-cases (balance_of c == amount)) [
  | inl y ↦
      let same : c ≡ coin = some-injective _ _ (rw y at e) in
      (0, ap some same, rw (← same) (ground arith))
  | inr n ↦ let (i, there, worth) = exact_match-found amount cs (rw n at e) in (suc i, there, worth)
]

-- The coins that the loop takes.
merge_from-taken :
    (amount running : ℕ) (coins : List Coin)
    → amount ≤ running + total coins
    → (taken : List Coin) × (left : List Coin) × (coins ≡ taken ++ left)
      × (merge_from amount running coins ≡ map coin_id_of taken)
      × AreNeeded amount running taken
      × (amount ≤ running + total taken)
unfolding merge_from
merge_from-taken amount running [] le = ([], [], refl, refl, tt, omega arith)
merge_from-taken amount running (c ∷ cs) le = elim (Bool-cases (leb amount running)) [
  | inl y ↦ ([], c ∷ cs, refl, rw y refl, tt, ground arith)
  | inr n ↦
      let (taken, left, all, ids, needed, enough) =
        merge_from-taken amount (running + balance_of c) cs (omega arith) in
      (
        c ∷ taken,
        left,
        ap (◌∷◌ c) all,
        rw n (ap (◌∷◌ (c.coin_id)) ids),
        (ground arith, needed),
        omega arith,
      )
]

prepared-Pays : (amount : ℕ) (coins : List Coin) → Pays amount coins (prepared amount coins)
unfolding prepared split_or_merge
prepared-Pays amount [] = no_coin refl
prepared-Pays amount (primary ∷ rest) = elim (Bool-cases (ltb (total (primary ∷ rest)) amount)) [
  | inl few ↦ rw few (too_little (ground arith))
  | inr no_fewer ↦ elim (Option-cases (exact_match amount (primary ∷ rest))) [
    | inr (coin, y) ↦
        let (i, there, worth) = exact_match-found amount (primary ∷ rest) y in
        rw (no_fewer, y) (exact i coin there worth)
    | inl n ↦ elim (Bool-cases (ltb amount (balance_of primary))) [
      | inl larger ↦ rw (no_fewer, n, larger) (from_largest primary rest refl (ground arith))
      | inr smaller ↦
          let (taken, left, all, ids, needed, enough) =
            merge_from-taken amount (balance_of primary) rest (ground arith) in
          rw (no_fewer, n, smaller, ids)
            (merged primary taken left (ap (◌∷◌ primary) all) needed enough)
    ]
  ]
]

-- When the owner's WAL coins can be listed: prepare_wal_coin_for_amount sorts them, a largest one first, and
-- what it then adds to the transaction pays the amount with them, from a coin that is worth just this,
-- from a larger one, or from the largest after merging into it no more coins than are needed; it raises
-- only if they are together worth less than the amount, or there are none.
pub prepare_wal_coin_for_amount-Pays :
    (wallet : Wallet) (owner : String) (amount : ℕ) {coin_type : String} {decimals : ℕ}
    {coins : List Coin}
    → wal_balance_and_decimals wallet owner ≡ ok (coin_type, decimals)
    → wallet.get_coins owner (coin_object_type wallet coin_type) ≡ some coins
    → Pays amount (largest_first coins) (prepare_wal_coin_for_amount wallet owner amount)
      × Perm (largest_first coins) coins
      × HeadLargest (largest_first coins)
unfolding prepare_wal_coin_for_amount
prepare_wal_coin_for_amount-Pays wallet owner amount {coins = coins} typed listed = (
  rw (typed, listed) (prepared-Pays amount (largest_first coins)),
  largest_first-Perm coins,
  largest_first-HeadLargest coins,
)
