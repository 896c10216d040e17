-- ===== src/Examples/Nodes.antt =====
-- The node of src/main.rs and its faucet over many requests, at concrete inputs.
use hancoin.Prelude.{take, String, length, ◌*◌, ◌≡◌, refl, [], ◌∷◌, List, none, arith}
use hancoin.Machine.{Profile}
use hancoin.Ledger.{new}
use hancoin.Api.{reply, reject, faucet_cooldown_not_over}
use hancoin.Account.{faucet_daily_limit}
use hancoin.Api.Faucet.Money.{balance_of}
use hancoin.Api.Faucet.Daily.{times}
use hancoin.Api.Faucet.Drain.{payments, least_of, IsDrained, claims_drain}
use hancoin.Api.Faucet.Spec.{view}
use hancoin.Api.Faucet.Runs.{Asked, untouched, draws, claims, claims-new}
use hancoin.Examples.Instances.{lists}

-- Ann asks twice within a day, and Bob asks.
abbrev two_days : List Asked
two_days =
    record { id = "ann"; now = 90000; created = none }
    ∷ record { id = "ann"; now = 100000; created = none }
    ∷ record { id = "bob"; now = 200000; created = none }
    ∷ []

two_paid :
    (draws untouched two_days).0
    ≡ reply (record { balance = 100000; issued = 100000 })
      ∷ reject faucet_cooldown_not_over
      ∷ reply (record { balance = 100000; issued = 100000 })
      ∷ []
unfolding draws
two_paid = refl

claims-new_example :
    ((claims lists Profile.debug (new lists) two_days).0 ≡ (draws untouched two_days).0)
    × (view lists (claims lists Profile.debug (new lists) two_days).1
        ≡ (draws untouched two_days).1)
claims-new_example = claims-new lists Profile.debug two_days (omega arith)

-- Ann asks on two days, and Bob on one.
abbrev three_days : List Asked
three_days =
    record { id = "ann"; now = 90000; created = none }
    ∷ record { id = "bob"; now = 100000; created = none }
    ∷ record { id = "ann"; now = 200000; created = none }
    ∷ []

claims_drain_example :
    IsDrained payments three_days (claims lists Profile.debug (new lists) three_days).0
    × ((claims lists Profile.debug (new lists) three_days).1.issued
        ≡ least_of (length three_days) payments * faucet_daily_limit)
    × ((id : String)
        → balance_of lists (claims lists Profile.debug (new lists) three_days).1 id
          ≡ times id (take payments three_days) * faucet_daily_limit)
claims_drain_example = claims_drain lists Profile.debug three_days (omega arith) (omega arith)
