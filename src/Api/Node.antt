-- ===== src/Api/Node.antt =====
-- The node of src/main.rs: requests that reach its handlers one after another, from a new ledger.
use hancoin.Prelude.{◌≡◌, refl, String, List, [], ◌∷◌, none, inl, inr, arith}
use hancoin.Machine.{Profile, Clock}
use hancoin.Account.{Account}
use hancoin.Ledger.{Stores, Ledger, stored, new}
use hancoin.Api.{Outcome, reply, reject, panic, Json, Crypto, TwoDigits}
use hancoin.Api.Faucet.{handle_faucet}
use hancoin.Api.Faucet.Locked.{Refused, handle_faucet-Refused}
use hancoin.Api.Transfer.{TransferRequest, handle_balance, handle_transfer, handle_transfer_lem}

module _ (S : Stores) (js : Json) (C : Crypto) where
  -- A request, with the readings of the clock that its handler makes.
  pub data Request : Type 0 where
    faucet : js.Value → Clock → Clock → Request
    balance : String → Request
    transfer : js.Value → Request

  -- What follows the checks of a transfer.
  abbrev pub Rest : Type 0
  Rest = TransferRequest → Account → C.VerifyingKey → Ledger S → Outcome (Unit {0}) × Ledger S

  -- Whether a request ends with a reply, and the ledger that it leaves.
  abbrev pub forget {ℓ} : {A : Type ℓ} → Outcome A → Outcome (Unit {0})
  forget (reply a) = reply tt
  forget (reject e) = reject e
  forget panic = panic

  unfoldable pub serve : Profile → Rest → Ledger S → Request → Outcome (Unit {0}) × Ledger S
  serve profile rest l (faucet v clock created) =
      let r = handle_faucet S js C profile v clock created l in (forget r.0, r.1)
  serve profile rest l (balance id) = (forget (handle_balance S id l), l)
  serve profile rest l (transfer v) = handle_transfer S js C rest v l

  pub run : Profile → Rest → Ledger S → List Request → Ledger S
  run profile rest l [] = l
  run profile rest l (r ∷ rs) = run profile rest (serve profile rest l r).1 rs

  no_account : (id : String) → stored S (new S) id ≡ none
  unfolding new
  no_account id = S.accounts.get_empty id

  module _ (two : TwoDigits C) (profile : Profile) (rest : Rest) where
    -- In a new ledger every request is refused and leaves the ledger as it is.
    serve-new :
        (r : Request)
        → Refused (serve profile rest (new S) r).0 × ((serve profile rest (new S) r).1 ≡ new S)
    unfolding serve
    serve-new (faucet v clock created) =
        ground (arith, handle_faucet-Refused js C two S profile v clock created (new S))
    serve-new (balance id) = unfold handle_balance in ground (arith, no_account id)
    serve-new (transfer v) = elim (handle_transfer_lem S js C rest v (new S)) [
      | inl refused ↦ refused
      | inr (p, _) ↦ cc (p.found, no_account p.request.from)
    ]

    -- A node that starts with a new ledger never gets an account: after any requests the ledger is
    -- the new one, and the next request is refused, whatever it is.
    pub run-new :
        (rs : List Request) (r : Request)
        → (run profile rest (new S) rs ≡ new S)
          × Refused (serve profile rest (run profile rest (new S) rs) r).0
    unfolding run
    run-new [] r = (refl, (serve-new r).0)
    run-new (q ∷ rs) r = rw ((serve-new q).1) (run-new rs r)
