-- ===== src/CommitteeFanout/Runs.antt =====
-- A concrete run of fan_out_to_committee (pytusk/core/committee_fanout.py), and its theorem there.
use pytusk.Prelude.{ℕ, ◌+◌, ◌≡◌, refl, false, some, [], ◌∷◌, leb}
use pytusk.CommitteeFanout.{Fanned, fan_out_to_committee}
use pytusk.CommitteeFanout.Accounts.{IsAccount, fan_out_accounts}
use pytusk.CommitteeFanout.OneByOne.{first_done, one_by_one, one_by_one_laws}

abbrev weigh : ℕ → ℕ → ℕ
weigh weight task = weight + task

abbrev ignore : ℕ → ℕ → ℕ
ignore weight task = weight

-- The tasks are their weights, and the threshold is 7: the first two meet it, the third is done
-- within the grace window, and the fourth is cancelled.
run :
    fan_out_to_committee one_by_one weigh ignore (leb 7) (4 ∷ 3 ∷ 2 ∷ 1 ∷ []) 0
    ≡ some (record {
      acc = 9;
      completed = 4 ∷ 3 ∷ 2 ∷ [];
      cancelled = 1 ∷ [];
      unreported = [];
      swept = [];
      interrupted = false;
    })
unfolding fan_out_to_committee first_done
run = refl

fan_out_accounts_example :
    (out : Fanned ℕ ℕ) × (fan_out_to_committee one_by_one weigh ignore
        (leb 7)
        (4 ∷ 3 ∷ 2 ∷ 1 ∷ [])
        0
      ≡ some out)
    × IsAccount one_by_one weigh ignore (leb 7) (4 ∷ 3 ∷ 2 ∷ 1 ∷ []) 0 out
fan_out_accounts_example =
    fan_out_accounts one_by_one weigh ignore (leb 7) one_by_one_laws (4 ∷ 3 ∷ 2 ∷ 1 ∷ []) 0
