-- ===== src/Api/Faucet/Drain.antt =====
-- How `handle_faucet` of src/main.rs gives out the supply, to its end.
use hancoin.Prelude.{
  take, ℕ, zero, suc, ◌+◌, ◌*◌, ◌-◌, ◌≤◌, ◌≡◌, refl, ap, ◌∙◌, String, List, [], ◌∷◌, ◌++◌, arith,
  length, replicate, ltb, eq_iff, if◌then◌else◌,
}
use hancoin.Machine.{Profile}
use hancoin.Account.{faucet_cooldown, faucet_daily_limit}
use hancoin.Supply.{han_total_supply}
use hancoin.Ledger.{Stores, new}
use hancoin.Api.{Outcome, reply, reject, total_supply_limit_reached}
use hancoin.Api.Faucet.{FaucetReply}
use hancoin.Api.Faucet.Money.{balance_of}
use hancoin.Api.Faucet.Spec.{Faucet, draw, paid, set_at}
use hancoin.Api.Faucet.Runs.{Asked, InOrder, untouched, draws, claims, claims-new}
use hancoin.Api.Faucet.Daily.{IsPatient, IsAllPaid, times, draw-paid}

-- The payments that the supply has coins for.
abbrev pub payments : ℕ
payments = 10000000

abbrev pub least_of : ℕ → ℕ → ℕ
least_of a b = if ltb a b then a else b

abbrev pub refused : Outcome FaucetReply
refused = reject total_supply_limit_reached

-- What claims get where there are coins left for some payments: the first of them are paid, and the
-- others are refused.
pub record IsDrained (left : ℕ) (cs : List Asked) (answers : List (Outcome FaucetReply))
    : Type 0 where
  pub paid : List (Outcome FaucetReply)
  pub split : answers ≡ paid ++ replicate (length cs - left) refused
  pub all_paid : IsAllPaid paid
  pub count : length paid ≡ least_of (length cs) left

record Drains (f : Faucet) (left : ℕ) (cs : List Asked) : Type 0 where
  answers : IsDrained left cs (draws f cs).0
  issued : (draws f cs).1.issued ≡ f.issued + least_of (length cs) left * faucet_daily_limit
  balances :
      (id : String)
      → (draws f cs).1.balance id ≡ f.balance id + times id (take left cs) * faucet_daily_limit

draw-refused :
    (f : Faucet) (id : String) (now : ℕ)
    → f.last_claim id + faucet_cooldown ≤ now
    → f.issued ≡ han_total_supply
    → draw f id now ≡ (refused, f)
draw-refused f id now h b = ground arith

-- With no coins left, everybody is refused, and nothing changes.
draws-refused :
    (f : Faucet) (last : String → ℕ) (cs : List Asked)
    → ((id : String) → f.last_claim id ≤ last id)
    → IsPatient last cs
    → f.issued ≡ han_total_supply
    → draws f cs ≡ (replicate (length cs) refused, f)
unfolding draws
draws-refused f last [] h p e = refl
draws-refused f last (c ∷ cs) h p e =
    let d = draw-refused f c.id c.now (omega (arith, h c.id)) e in
    let rest =
      draws-refused f (set_at last c.id c.now) cs (λ j. ground (arith, h j, h c.id, eq_iff c.id j))
        p.1 e in
    rw (d, draws) (rw rest refl)

none_over : (left : ℕ) → 0 ≡ 0 - suc left
none_over left = omega arith

suc-sub-suc : (n m : ℕ) → suc n - suc m ≡ n - m
suc-sub-suc n m = omega arith

abbrev payment : Faucet → String → Outcome FaucetReply
payment f id =
    reply (record { balance = f.balance id + faucet_daily_limit; issued = faucet_daily_limit })

draws-Drains :
    (f : Faucet) (left : ℕ) (cs : List Asked)
    → IsPatient f.last_claim cs
    → f.issued + left * faucet_daily_limit ≡ han_total_supply
    → Drains f left cs
unfolding draws
draws-Drains f zero cs p e =
    let d = draws-refused f f.last_claim cs (λ id. omega arith) p (omega arith) in
    record {
      answers = record {
        paid = [];
        split = rw d (ap (λ n. replicate n refused) (omega arith));
        all_paid = tt;
        count = ground arith;
      };
      issued = rw d (ground arith);
      balances = λ id. rw d (ground arith);
    }
draws-Drains f (suc left) [] p e = record {
  answers = record {
    paid = [];
    split = ap (λ n. replicate n refused) (none_over left);
    all_paid = tt;
    count = ground arith;
  };
  issued = ground arith;
  balances = λ id. ground arith;
}
draws-Drains f (suc left) (c ∷ cs) p e =
    let d = draw-paid f c.id c.now p.0 (omega arith) in
    let rest = draws-Drains (paid f c.id c.now) left cs p.1 (omega arith) in
    record {
      answers = record {
        paid = payment f c.id ∷ rest.answers.paid;
        split = rw (d, suc-sub-suc (length cs) left) (ap (◌∷◌ (payment f c.id)) rest.answers.split);
        all_paid = rest.answers.all_paid;
        count = ground (arith, rest.answers.count);
      };
      issued = rw d (ground (arith, rest.issued));
      balances = λ id. rw d (ground (arith, rest.balances id, eq_iff c.id id));
    }

module _ (S : Stores) (profile : Profile) where
  -- From a new ledger, with a clock that does not go back, any claims, each a day or more after the
  -- last claim of its account and after the epoch: the first ten million are paid, or all if they are
  -- fewer, and the others are refused for the limit of the supply. Then the day's amount is issued for
  -- each payment, and each account has it for each of its own.
  pub claims_drain :
      (cs : List Asked)
      → InOrder 0 cs
      → IsPatient (λ id. 0) cs
      → IsDrained payments cs (claims S profile (new S) cs).0
        × ((claims S profile (new S) cs).1.issued
            ≡ least_of (length cs) payments * faucet_daily_limit)
        × ((id : String)
            → balance_of S (claims S profile (new S) cs).1 id
              ≡ times id (take payments cs) * faucet_daily_limit)
  claims_drain cs o p =
      let n = claims-new S profile cs o in
      let d = draws-Drains untouched payments cs p (omega arith) in
      (
        record {
          paid = d.answers.paid;
          split = n.0 ∙ d.answers.split;
          all_paid = d.answers.all_paid;
          count = d.answers.count;
        },
        ap (λ (f : Faucet). f.issued) n.1 ∙ d.issued ∙ omega arith,
        (λ id. ap (λ (f : Faucet). f.balance id) n.1 ∙ d.balances id ∙ omega arith),
      )
