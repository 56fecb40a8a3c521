-- ===== src/Wasm/Grants/Accept/Spending.antt =====
-- What an accepted call takes of a limit.
use bignftd.Base.{ℕ, ◌+◌, ◌≤◌, ◌≡◌, refl, true, if◌then◌else◌}
use bignftd.Chain.Outcome.{ok, err, panic}
use bignftd.Chain.Checks.{Ensures}
use bignftd.Wasm.Gas.{Priced}
use bignftd.Wasm.Grants.{Limit, LimitResult, priced}
use bignftd.Wasm.Grants.Accept.Budget.{limit_or}

-- An accepted call leaves a limit that counts in the same way, and takes its cost.
abbrev pub Spends : (Limit → ℕ) → (Limit → Type 0) → ℕ → Limit → LimitResult → Type 0
Spends weigh IsMeasured cost l result =
    result.accepted ≡ true
    → IsMeasured (limit_or l result.update_limit)
      × (cost + (if result.delete_limit then 0 else weigh (limit_or l result.update_limit))
          ≤ weigh l)

-- Every value of a call that may panic
pub Ensures-priced :
    {A : Type 0}
    → (P : A → Type 0) (r : Priced A) → ((a : A) → r ≡ ok a → P a)
    → Ensures P (priced r)
Ensures-priced P (ok a) h = h a refl
Ensures-priced P (err e) h = absurd e
Ensures-priced P (panic p) h = tt
