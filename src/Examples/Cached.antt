-- ===== src/Examples/Cached.antt =====
-- The cache of a ledger next to claims of src/main.rs, at concrete inputs.
use hancoin.Supply.{han_total_supply}
use hancoin.Prelude.{arith, List, ◌∷◌, ◌≤◌, ◌≡◌, ◌+◌, ◌*◌, refl, [], none, some}
use hancoin.Machine.{Profile}
use hancoin.Account.{Account, active, default, faucet_daily_limit}
use hancoin.Ledger.{Ledger, new, read_cache, load, get_account}
use hancoin.Ledger.Cache.{IsCoherent, new-IsCoherent, get_account_lem}
use hancoin.Api.Faucet.{claim, read_claim, write_claim, find_or_create, decide}
use hancoin.Api.Faucet.Money.{balance_of, IsBacked}
use hancoin.Api.Faucet.Issue.{claim-IsBacked, new-IsBacked}
use hancoin.Api.Faucet.Behind.{Use, claims, reads, apply, apply_all, never_overstated}
use hancoin.Api.Faucet.Runs.{claims as claim_list}
use hancoin.Api.Faucet.Daily.{IsAllPaid}
use hancoin.Api.Faucet.Backwards.{asks_at, claims-IsFalling}
use hancoin.Api.{panic}
use hancoin.Api.Faucet.Stale.{claim-IsCoherent, get_account-claim}
use hancoin.Examples.Instances.{lists}

abbrev first : Ledger lists
first = new lists

-- The account "a" got one payment, and was not read since.
abbrev paid : Ledger lists
paid = (claim lists Profile.release first "a" 90000 none).1

paid-IsCoherent : IsCoherent lists paid
unfolding new
paid-IsCoherent =
    claim-IsCoherent lists Profile.release first "a" 90000 none refl (new-IsCoherent lists)

-- Then it was read, and is in the cache.
abbrev warm : Ledger lists
warm = (get_account lists paid "a").1

paid_once : Account
paid_once = record {
  balance = 100000;
  last_claim = 90000;
  transactions = [];
  created_at = 0;
  last_active = 0;
  nonce = 0;
  status = active;
}

warm-IsBacked : IsBacked lists warm
unfolding get_account read_cache load claim read_claim write_claim find_or_create decide new default
warm-IsBacked =
    let v = claim-IsBacked lists Profile.release first "a" 90000 none (new-IsBacked lists) in
    record { within = v.within; backed = v.backed }

-- The next claim is granted, and the cache still answers the balance after the first one.
get_account-claim_example :
    ((get_account lists (claim lists Profile.release warm "a" 180000 none).1 "a").0
      ≡ some paid_once)
    × (balance_of lists (claim lists Profile.release warm "a" 180000 none).1 "a"
        ≡ paid_once.balance + faucet_daily_limit)
unfolding get_account read_cache load claim read_claim write_claim find_or_create decide new default
    paid_once
get_account-claim_example =
    get_account-claim lists Profile.release warm "a" 180000 none paid_once
      (record { balance = 200000; issued = faucet_daily_limit }) warm-IsBacked
      (get_account_lem lists paid "a" paid-IsCoherent).2 refl refl

-- Ann is paid, read, and paid again a day later.
abbrev used : List Use
used = claims "a" 90000 none ∷ reads "a" ∷ claims "a" 180000 none ∷ []

-- The balance after the first payment is in the cache, and the one after both in the map.
never_overstated_example :
    (paid_once.balance ≤ balance_of lists (apply_all lists Profile.release (new lists) used) "a")
    × (balance_of lists (apply_all lists Profile.release (new lists) used) "a"
        ≤ (apply_all lists Profile.release (new lists) used).issued)
    × ((apply_all lists Profile.release (new lists) used).issued ≤ han_total_supply)
unfolding apply_all apply get_account read_cache load claim read_claim write_claim find_or_create
    decide new default paid_once
never_overstated_example = never_overstated lists Profile.release used "a" paid_once refl

-- The clock is set back by a second, and then to the epoch's first minute.
claims-IsFalling_example :
    let cs = asks_at "a" 89999 ∷ asks_at "a" 50 ∷ [] in
    let c = claim_list lists Profile.release paid cs in
    (claim_list lists Profile.debug paid cs ≡ (panic ∷ panic ∷ [], paid))
    × IsAllPaid c.0
    × (balance_of lists c.1 "a" ≡ balance_of lists paid "a" + 2 * faucet_daily_limit)
unfolding claim read_claim write_claim find_or_create decide new default paid_once
claims-IsFalling_example =
    claims-IsFalling lists paid "a" paid_once (89999 ∷ 50 ∷ [])
      (claim-IsBacked lists Profile.release first "a" 90000 none (new-IsBacked lists)) refl
      (omega arith) (omega arith) (omega arith)
