-- ===== src/Api/Faucet/Builds.antt =====
-- `handle_faucet` of src/main.rs in the two kinds of build, and next to `Account::can_claim_faucet` of
-- src/types.rs, which tests the same cooldown.
use hancoin.Prelude.{
  ℕ, ◌≤◌, ◌<◌, ◌≡◌, refl, ap, ◌∙◌, String, List, [], ◌∷◌, none, some, arith, if◌then◌else◌, ltb,
}
use hancoin.Machine.{Profile, u64_mod, Clock, add_u64, sub_u64-some, add_u64-some}
use hancoin.Account.{Account, claimable, too_frequent, can_claim_faucet, faucet_daily_limit}
use hancoin.Supply.{han_total_supply}
use hancoin.Ledger.{Stores, Ledger, new}
use hancoin.Api.{
  Outcome, reply, reject, panic, faucet_cooldown_not_over, total_supply_limit_reached,
}
use hancoin.Api.Faucet.{Grant, FaucetReply, find_or_create, decide, read_claim, write_claim, claim}
use hancoin.Api.Faucet.Money.{IsBacked}
use hancoin.Api.Faucet.Issue.{claim-IsBacked, new-IsBacked}
use hancoin.Api.Faucet.Answer.{last_claim_of, last_claim-find_or_create}
use hancoin.Api.Faucet.Spec.{Faucet, view, claim-draw}
use hancoin.Api.Faucet.Runs.{Asked, InOrder, draw-last, no_claim, claims}

module _ (S : Stores) where
  -- The test of the supply, which comes after the cooldown.
  abbrev pub with_supply : Profile → ℕ → Account → Outcome Grant
  with_supply profile issued account = elim (add_u64 profile issued faucet_daily_limit) [
    | none ↦ panic
    | some new_issued ↦
        if ltb han_total_supply new_issued
        then reject total_supply_limit_reached
        else reply (record { account = account; new_issued = new_issued })
  ]

  -- The faucet's own test of the cooldown is that of `can_claim_faucet` at the same reading of the
  -- clock: it panics where that does, and refuses a claim that has to wait; else the supply decides.
  pub decide-can_claim_faucet :
      (profile : Profile) (issued now : ℕ) (account : Account)
      → decide S profile issued now account ≡ (elim (can_claim_faucet profile account (some now)) [
        | none ↦ panic
        | some (too_frequent wait) ↦ reject faucet_cooldown_not_over
        | some claimable ↦ with_supply profile issued account
      ])
  unfolding decide can_claim_faucet
  decide-can_claim_faucet profile issued now account = ground arith

  decide-builds :
      (p q : Profile) (issued now : ℕ) (a : Account)
      → issued ≤ han_total_supply
      → a.last_claim ≤ now
      → now < u64_mod
      → decide S p issued now a ≡ decide S q issued now a
  unfolding decide
  decide-builds p q issued now a w h b = ground (
    arith,
    sub_u64-some p now a.last_claim h b,
    sub_u64-some q now a.last_claim h b,
    add_u64-some p issued faucet_daily_limit,
    add_u64-some q issued faucet_daily_limit,
  )

  -- What follows the reads of a claim.
  abbrev finished : String → ℕ → Outcome Grant × Ledger S → Outcome FaucetReply × Ledger S
  finished id now r = elim r.0 [
    | reply g ↦ let w = write_claim S r.1 id now g in (reply w.0, w.1)
    | reject e ↦ (reject e, r.1)
    | panic ↦ (panic, r.1)
  ]

  claim-builds :
      (p q : Profile) (l : Ledger S) (id : String) (now : ℕ) (created : Clock)
      → IsBacked S l
      → last_claim_of S l id ≤ now
      → now < u64_mod
      → claim S p l id now created ≡ claim S q l id now created
  unfolding claim read_claim
  claim-builds p q l id now created v h b =
      let a = (find_or_create S l id created).0 in
      let e =
        decide-builds p q l.issued now a v.within
          (omega (arith, last_claim-find_or_create S l id created)) b in
      ap (λ (o : Outcome Grant). finished id now (o, (find_or_create S l id created).1)) e

  claims-builds_from :
      (p q : Profile) (l : Ledger S) (t : ℕ) (cs : List Asked)
      → IsBacked S l
      → ((j : String) → last_claim_of S l j ≤ t)
      → InOrder t cs
      → claims S p l cs ≡ claims S q l cs
  unfolding claims
  claims-builds_from p q l t [] v h o = refl
  claims-builds_from p q l t (c ∷ cs) v h o =
      let k : Ledger S = (claim S p l c.id c.now c.created).1 in
      let one = claim-builds p q l c.id c.now c.created v (omega (arith, h c.id)) o.1 in
      let seen = claim-draw S p l c.id c.now c.created v (omega (arith, h c.id)) o.1 in
      let rest =
        claims-builds_from p q k c.now cs (claim-IsBacked S p l c.id c.now c.created v)
          (λ j. omega (
            arith,
            ap (λ (f : Faucet). f.last_claim j) seen.1,
            draw-last S p (view S l) c.id c.now (λ i. omega (arith, h i)) j,
          ))
          o.2 in
      ap
        (λ (r : List (Outcome FaucetReply) × Ledger S).
          ((claim S p l c.id c.now c.created).0 ∷ r.0, r.1))
        rest
      ∙ ap
          (λ (r : Outcome FaucetReply × Ledger S).
            (r.0 ∷ (claims S q r.1 cs).0, (claims S q r.1 cs).1))
          one

  -- From a new ledger, with a clock that does not go back, a debug build and a release build give the
  -- same answers to any claims and leave the same ledger: no sum and no difference overflows, so that
  -- neither build panics or wraps round.
  pub claims-builds :
      (cs : List Asked)
      → InOrder 0 cs
      → claims S Profile.debug (new S) cs ≡ claims S Profile.release (new S) cs
  claims-builds cs o =
      claims-builds_from Profile.debug Profile.release (new S) 0 cs (new-IsBacked S)
        (λ j. omega (arith, no_claim S Profile.debug j)) o
