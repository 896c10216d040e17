-- ===== src/Api/Faucet/Tasks/Bounds.antt =====
-- What holds of the ledger of src/main.rs however the tasks of claims overlap.
use hancoin.Prelude.{
  ℕ, ◌*◌, ◌≤◌, String, List, [], ◌∷◌, arith, length, inl, inr, Distinct, nat_eq, Bool-cases,
}
use hancoin.Machine.{Profile}
use hancoin.Account.{faucet_daily_limit}
use hancoin.Supply.{han_total_supply}
use hancoin.Ledger.{Stores, Ledger, new}
use hancoin.Ledger.Balances.{sum_balances}
use hancoin.Api.Faucet.Money.{balance_of}
use hancoin.Api.Faucet.Runs.{Asked}
use hancoin.Api.Faucet.Tasks.{System, turn, run, begin}
use hancoin.Api.Faucet.Tasks.Counts.{counts, counts-le}
use hancoin.Api.Faucet.Tasks.Paid.{
  allowed, IsHonest, Fits-IsHonest, Fits, Fits-log_paid, IsPaidFor, advance-IsPaidFor,
}

module _ (S : Stores) (profile : Profile) where
  record IsOrderly (s : System S) : Type 0 where
    paid_for : IsPaidFor S s.ledger s.log
    fits : (n : ℕ) → Fits s.log (s.tasks n)

  turn-IsOrderly : (s : System S) (n : ℕ) → IsOrderly s → IsOrderly (turn S profile s n)
  unfolding turn
  turn-IsOrderly s n h =
      let r = advance-IsPaidFor S profile s.ledger s.log (s.tasks n) h.paid_for (h.fits n) in
      record {
        paid_for = r.0;
        fits = λ m. elim (Bool-cases (nat_eq n m)) [
          | inl same ↦ rw same r.1
          | inr other ↦ rw other (Fits-log_paid (s.tasks n) s.log (s.tasks m) (h.fits m))
        ];
      }

  run-IsOrderly : (s : System S) (ns : List ℕ) → IsOrderly s → IsOrderly (run S profile s ns)
  unfolding run
  run-IsOrderly s [] h = h
  run-IsOrderly s (n ∷ ns) h = run-IsOrderly (turn S profile s n) ns (turn-IsOrderly s n h)

  begin-IsOrderly : (asked : ℕ → Asked) → IsOrderly (begin S asked)
  unfolding new
  begin-IsOrderly asked = record {
    paid_for = record {
      within = omega arith;
      issued = omega arith;
      balances = λ id. ground (arith, S.accounts.get_empty id);
    };
    fits = λ n. tt;
  }

  sum-le :
      (l : Ledger S) (log ids : List String)
      → IsPaidFor S l log
      → sum_balances S.accounts l.accounts ids ≤ counts ids log * faucet_daily_limit
  unfolding sum_balances
  sum-le l log [] h = omega arith
  sum-le l log (id ∷ ids) h = omega (arith, h.balances id, sum-le l log ids h)

  -- From a new ledger, however any claims overlap, the count of issued coins stays within the supply
  -- and within the payments that were written; different accounts together hold at most the day's
  -- amount for each payment, and each account for each of its own; and a claim that is answered with
  -- a payment is one for an account that was paid, and names no more than its payments.
  pub run_bounds :
      (asked : ℕ → Asked) (schedule : List ℕ)
      → let s = run S profile (begin S asked) schedule in
        (s.ledger.issued ≤ han_total_supply)
        × (s.ledger.issued ≤ length s.log * faucet_daily_limit)
        × ((ids : List String)
            → Distinct ids
            → sum_balances S.accounts s.ledger.accounts ids ≤ length s.log * faucet_daily_limit)
        × ((id : String) → balance_of S s.ledger id ≤ allowed id s.log)
        × ((n : ℕ) → IsHonest s.log (s.tasks n))
  run_bounds asked schedule =
      let s = run S profile (begin S asked) schedule in
      let h = run-IsOrderly (begin S asked) schedule (begin-IsOrderly asked) in
      (
        h.paid_for.within,
        h.paid_for.issued,
        (λ ids d. omega (arith, sum-le s.ledger s.log ids h.paid_for, counts-le ids s.log d)),
        h.paid_for.balances,
        (λ n. Fits-IsHonest s.log (s.tasks n) (h.fits n)),
      )
