-- ===== src/Examples/Api.antt =====
-- Handlers of src/main.rs at concrete inputs.
use hancoin.Prelude.{◌≡◌, [], ◌∷◌, none, some}
use hancoin.Machine.{Profile}
use hancoin.Ledger.{Ledger, new}
use hancoin.Api.{reply}
use hancoin.Api.Faucet.{handle_faucet, claim}
use hancoin.Api.Faucet.Locked.{Refused, handle_faucet-Refused}
use hancoin.Api.Faucet.Issue.{Claimed, claim_lem, new-IsBacked}
use hancoin.Api.Transfer.{Ends, handle_transfer_lem}
use hancoin.Api.Node.{faucet, balance, serve, run, run-new}
use hancoin.Examples.Instances.{lists}
use hancoin.Examples.Hex.{trusting, trusting-TwoDigits, Body, text, field, end, bodies}

abbrev first : Ledger lists
first = new lists

ask : Body
ask =
    field "account_id" (text "123456789ABCDEFGHJKLMNPQRSTUVWXY") (field "signature" (text "00") end)

handle_faucet-Refused_example :
    Refused (handle_faucet lists bodies trusting Profile.release ask (some 90000) none first).0
    × ((handle_faucet lists bodies trusting Profile.release ask (some 90000) none first).1 ≡ first)
handle_faucet-Refused_example =
    handle_faucet-Refused bodies trusting trusting-TwoDigits lists Profile.release ask (some 90000)
      none first

claim_lem_example :
    Claimed lists first "a" 90000
      (claim lists Profile.release first "a" 90000 none).0
      (claim lists Profile.release first "a" 90000 none).1
claim_lem_example = claim_lem lists Profile.release first "a" 90000 none (new-IsBacked lists)

handle_transfer_lem_example : Ends lists bodies trusting (λ t a k l. (reply tt, l)) ask first
handle_transfer_lem_example =
    handle_transfer_lem lists bodies trusting (λ t a k l. (reply tt, l)) ask first

run-new_example :
    (run lists bodies trusting Profile.release
        (λ t a k l. (reply tt, l))
        (new lists)
        (faucet ask (some 90000) none ∷ [])
      ≡ new lists)
    × Refused
        (serve lists bodies trusting Profile.release
          (λ t a k l. (reply tt, l))
          (run lists bodies trusting Profile.release
            (λ t a k l. (reply tt, l))
            (new lists)
            (faucet ask (some 90000) none ∷ []))
          (balance "a")).0
run-new_example =
    run-new lists bodies trusting trusting-TwoDigits Profile.release (λ t a k l. (reply tt, l))
      (faucet ask (some 90000) none ∷ []) (balance "a")
