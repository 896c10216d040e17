-- ===== src/Examples/Overlaps.antt =====
-- Claims of `handle_faucet` of src/main.rs that overlap, at concrete inputs.
use hancoin.Prelude.{
  ℕ, ◌+◌, ◌*◌, ◌≤◌, ◌<◌, ◌≡◌, refl, String, List, [], ◌∷◌, ◌++◌, none, some, arith, nat_eq,
  if◌then◌else◌, length, replicate, Distinct,
}
use hancoin.Machine.{Profile}
use hancoin.Account.{default, faucet_daily_limit}
use hancoin.Supply.{han_total_supply}
use hancoin.Ledger.{new, stored}
use hancoin.Ledger.Balances.{sum_balances}
use hancoin.Api.{reply}
use hancoin.Api.Faucet.{find_or_create, decide, read_claim, write_claim, claim}
use hancoin.Api.Faucet.Money.{balance_of, IsBacked}
use hancoin.Api.Faucet.Issue.{new-IsBacked}
use hancoin.Api.Faucet.Runs.{Asked, claims, untouched, draws}
use hancoin.Api.Faucet.Spec.{view}
use hancoin.Api.Faucet.Crowd.{Granted, ids, reads, writes, AllHold, crowd_loses_issue}
use hancoin.Api.Faucet.Builds.{claims-builds}
use hancoin.Api.Faucet.Tasks.{System, found, done, advance, turn, run, begin}
use hancoin.Api.Faucet.Tasks.Paid.{allowed, IsHonest}
use hancoin.Api.Faucet.Tasks.Bounds.{run_bounds}
use hancoin.Api.Faucet.Tasks.InTurn.{in_turn, answered, begin-in_turn}
use hancoin.Api.Faucet.Tasks.Wiped.{payment_is_wiped}
use hancoin.Examples.Instances.{lists}

abbrev asks : String → Asked
asks id = record { id = id; now = 90000; created = none }

-- Every task claims for Ann.
abbrev ann_only : System lists
ann_only = begin lists (λ n. asks "ann")

-- Two tasks take turns: both find that the account is missing, and both are paid.
abbrev by_turns : List ℕ
by_turns = 0 ∷ 1 ∷ 0 ∷ 1 ∷ 0 ∷ 1 ∷ 0 ∷ 1 ∷ 0 ∷ 1 ∷ []

-- One payment is left of the two, and one is counted.
by_turns_lem :
    (balance_of lists (run lists Profile.debug ann_only by_turns).ledger "ann" ≡ 100000)
    × ((run lists Profile.debug ann_only by_turns).ledger.issued ≡ 100000)
    × ((run lists Profile.debug ann_only by_turns).log ≡ "ann" ∷ "ann" ∷ [])
unfolding run turn advance new default decide
by_turns_lem = (refl, refl, refl)

run_bounds_example :
    let s = run lists Profile.debug ann_only by_turns in
    (s.ledger.issued ≤ han_total_supply)
    × (s.ledger.issued ≤ length s.log * faucet_daily_limit)
    × ((ids : List String)
        → Distinct ids
        → sum_balances lists.accounts s.ledger.accounts ids ≤ length s.log * faucet_daily_limit)
    × ((id : String) → balance_of lists s.ledger id ≤ allowed id s.log)
    × ((n : ℕ) → IsHonest s.log (s.tasks n))
run_bounds_example = run_bounds lists Profile.debug (λ n. asks "ann") by_turns

-- Ann claims twice, with Bob in between.
abbrev ann_and_bob : ℕ → Asked
ann_and_bob n = if nat_eq n 7 then asks "bob" else asks "ann"

begin-in_turn_example :
    let r = run lists Profile.debug (begin lists ann_and_bob) (in_turn (2 ∷ 7 ∷ 0 ∷ [])) in
    let d = draws untouched (asks "ann" ∷ asks "bob" ∷ asks "ann" ∷ []) in
    (r.tasks 2 ∷ r.tasks 7 ∷ r.tasks 0 ∷ []
      ≡ answered (asks "ann" ∷ asks "bob" ∷ asks "ann" ∷ []) d.0)
    × (view lists r.ledger ≡ d.1)
begin-in_turn_example =
    begin-in_turn lists Profile.debug ann_and_bob (2 ∷ 7 ∷ 0 ∷ [])
      ((refl, (refl, tt)), ((refl, tt), (tt, tt))) (omega arith)

payment_is_wiped_example :
    let r = run lists Profile.debug ann_only (0 ∷ replicate 5 1 ++ 0 ∷ []) in
    (r.tasks 1 ≡ done "ann" (reply (record { balance = 100000; issued = 100000 })))
    × (r.tasks 0 ≡ found "ann" 90000 (default none))
    × (stored lists r.ledger "ann" ≡ some (default none))
    × (balance_of lists r.ledger "ann" ≡ 0)
unfolding claim read_claim find_or_create decide write_claim new default
payment_is_wiped_example =
    payment_is_wiped lists Profile.debug ann_only 0 1 "ann" 90000 90000 none none
      (record { balance = 100000; issued = 100000 }) refl refl refl refl refl

abbrev granted_to : String → Granted
granted_to id = record {
  asked = asks id;
  grant = record { account = default none; new_issued = 100000 };
}

crowd_loses_issue_example :
    let cs = granted_to "ann" ∷ granted_to "bob" ∷ granted_to "cat" ∷ [] in
    let k = writes lists (reads lists Profile.debug (new lists) cs) cs in
    (k.issued ≡ (new lists).issued + faucet_daily_limit)
    × AllHold lists faucet_daily_limit (new lists) k cs
    × (sum_balances lists.accounts k.accounts (ids cs)
        ≡ sum_balances lists.accounts (new lists).accounts (ids cs)
          + length cs * faucet_daily_limit)
    × (sum_balances lists.accounts (new lists).accounts (ids cs) ≡ (new lists).issued
        → 1 < length cs
        → ¬ IsBacked lists k)
unfolding new read_claim find_or_create decide default
crowd_loses_issue_example =
    crowd_loses_issue lists Profile.debug (new lists) (granted_to "ann")
      (granted_to "bob" ∷ granted_to "cat" ∷ []) (new-IsBacked lists) (refl, (refl, (refl, tt)))
      (refl, (refl, (refl, tt)))

claims-builds_example :
    claims lists Profile.debug (new lists) (asks "ann" ∷ asks "bob" ∷ [])
    ≡ claims lists Profile.release (new lists) (asks "ann" ∷ asks "bob" ∷ [])
claims-builds_example = claims-builds lists (asks "ann" ∷ asks "bob" ∷ []) (omega arith)
