-- ===== src/Api/Faucet/Daily.antt =====
-- Accounts that claim from `handle_faucet` of src/main.rs once a day.
use hancoin.Prelude.{
  ℕ, ◌+◌, ◌*◌, ◌≤◌, ◌≡◌, ap, String, List, [], ◌∷◌, arith, length, suc, ◌==◌, eq_iff, subst, sym,
  if◌then◌else◌,
}
use hancoin.Machine.{Profile}
use hancoin.Account.{faucet_cooldown, faucet_daily_limit}
use hancoin.Supply.{han_total_supply}
use hancoin.Ledger.{Stores, new}
use hancoin.Api.{Outcome, reply, reject, panic}
use hancoin.Api.Faucet.{FaucetReply}
use hancoin.Api.Faucet.Money.{balance_of}
use hancoin.Api.Faucet.Spec.{Faucet, set_at, paid, draw}
use hancoin.Api.Faucet.Runs.{Asked, InOrder, untouched, draws, claims, claims-new}

-- Each claim comes a day or more after the last payment of its account.
abbrev pub IsPatient : (String → ℕ) → List Asked → Type 0
IsPatient last [] = Unit
IsPatient last (c ∷ cs) =
    (last c.id + faucet_cooldown ≤ c.now) × IsPatient (set_at last c.id c.now) cs

-- How often an account asks.
abbrev pub times : String → List Asked → ℕ
times id [] = 0
times id (c ∷ cs) = if c.id == id then suc (times id cs) else times id cs

abbrev pub IsAllPaid : List (Outcome FaucetReply) → Type 0
IsAllPaid [] = Unit
IsAllPaid (reply a ∷ os) = IsAllPaid os
IsAllPaid (reject e ∷ os) = ⊥
IsAllPaid (panic ∷ os) = ⊥

pub draw-paid :
    (f : Faucet) (id : String) (now : ℕ)
    → f.last_claim id + faucet_cooldown ≤ now
    → f.issued + faucet_daily_limit ≤ han_total_supply
    → draw f id now ≡ (
      reply (record { balance = f.balance id + faucet_daily_limit; issued = faucet_daily_limit }),
      paid f id now,
    )
draw-paid f id now h b = ground arith

record IsPaid (f : Faucet) (cs : List Asked) : Type 0 where
  answers : IsAllPaid (draws f cs).0
  issued : (draws f cs).1.issued ≡ f.issued + length cs * faucet_daily_limit
  balances :
      (id : String) → (draws f cs).1.balance id ≡ f.balance id + times id cs * faucet_daily_limit

draws-IsPaid :
    (f : Faucet) (cs : List Asked)
    → IsPatient f.last_claim cs
    → f.issued + length cs * faucet_daily_limit ≤ han_total_supply
    → IsPaid f cs
unfolding draws
draws-IsPaid f [] p b = record {
  answers = tt;
  issued = ground arith;
  balances = λ id. ground arith;
}
draws-IsPaid f (c ∷ cs) p b =
    let h = draws-IsPaid (paid f c.id c.now) cs p.1 (ground arith) in
    let d = draw-paid f c.id c.now p.0 (ground arith) in
    record {
      answers = rw (d, draws) h.answers;
      issued = ground (arith, d, h.issued);
      balances = λ id. ground (arith, d, h.balances id, eq_iff c.id id);
    }

module _ (S : Stores) (profile : Profile) where
  -- From a new ledger, with a clock that does not go back, any claims, each a day or more after the
  -- last payment of its account, are all paid, as long as the supply has room for all of them; then
  -- the day's amount is issued for each, and each account has it for each claim of its own.
  pub claims-IsPatient :
      (cs : List Asked)
      → InOrder 0 cs
      → IsPatient (λ id. 0) cs
      → length cs * faucet_daily_limit ≤ han_total_supply
      → IsAllPaid (claims S profile (new S) cs).0
        × ((claims S profile (new S) cs).1.issued ≡ length cs * faucet_daily_limit)
        × ((id : String)
            → balance_of S (claims S profile (new S) cs).1 id ≡ times id cs * faucet_daily_limit)
  claims-IsPatient cs o p b =
      let r = claims-new S profile cs o in
      let h = draws-IsPaid untouched cs p (omega arith) in
      (
        subst IsAllPaid (sym r.0) h.answers,
        omega (arith, ap (λ (f : Faucet). f.issued) r.1, h.issued),
        (λ id. omega (arith, ap (λ (f : Faucet). f.balance id) r.1, h.balances id)),
      )
