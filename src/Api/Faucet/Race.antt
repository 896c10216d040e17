-- ===== src/Api/Faucet/Race.antt =====
-- Two claims of `handle_faucet` of src/main.rs at the same time: the second reads the ledger before
-- the first has written it. The handlers run as tasks on several threads, and nothing is locked
-- between the reads and the writes.
use hancoin.Prelude.{
  ℕ, ◌+◌, ◌*◌, ◌≤◌, ◌≡◌, refl, ap, ◌∙◌, String, true, false, List, arith, contains, Distinct, ◌==◌,
  eq_iff,
}
use hancoin.Machine.{Profile, Clock}
use hancoin.Account.{Account, faucet_daily_limit}
use hancoin.Supply.{han_total_supply}
use hancoin.Ledger.{Stores, Ledger}
use hancoin.Ledger.Balances.{sum_balances}
use hancoin.Api.{reply}
use hancoin.Api.Faucet.{Grant, find_or_create, read_claim, write_claim}
use hancoin.Api.Faucet.Money.{
  balance_of, IsBacked, SameMoney, balance_of-le, SameMoney-sums, IsBacked-same,
}
use hancoin.Api.Faucet.Issue.{find_or_create_lem, decide_lem, write_claim-IsCredited}

module _ (S : Stores) where
  pub read_claim_lem :
      (profile : Profile) (l : Ledger S) (id : String) (now : ℕ) (created : Clock) (g : Grant)
      → IsBacked S l
      → (read_claim S profile l id now created).0 ≡ reply g
      → SameMoney S l (read_claim S profile l id now created).1
        × (g.account.balance ≡ balance_of S l id)
        × (g.new_issued ≡ l.issued + faucet_daily_limit)
        × (l.issued + faucet_daily_limit ≤ han_total_supply)
  unfolding read_claim
  read_claim_lem profile l id now created g v e =
      let f = find_or_create_lem S l id created in
      let d = decide_lem S profile l.issued now (find_or_create S l id created).0 g v.within e in
      (f.0, ap (λ (a : Account). a.balance) d.0 ∙ f.1, d.1, d.2)

  -- The ledger after both claims were read, and then both were written.
  pub interleaved :
      Profile → Ledger S → (String × ℕ × Clock) → Grant → (String × ℕ × Clock) → Grant → Ledger S
  interleaved profile l (a, now_a, made_a) ga (b, now_b, made_b) gb =
      let m : Ledger S = (read_claim S profile l a now_a made_a).1 in
      let n : Ledger S = (read_claim S profile m b now_b made_b).1 in
      (write_claim S (write_claim S n a now_a ga).1 b now_b gb).1

  pub issued-write_claim :
      (l : Ledger S) (id : String) (now : ℕ) (g : Grant)
      → (write_claim S l id now g).1.issued ≡ g.new_issued
  unfolding write_claim
  issued-write_claim l id now g = refl

  -- Two accounts are paid, and one payment is counted. Every sum that both are in grows by twice the
  -- amount; so a ledger that has paid out all that it counts as issued is no longer backed.
  pub interleaved_loses_issue :
      (profile : Profile) (l : Ledger S) (a b : String) (now_a now_b : ℕ) (made_a made_b : Clock)
      (ga gb : Grant)
      → IsBacked S l
      → (a == b) ≡ false
      → (read_claim S profile l a now_a made_a).0 ≡ reply ga
      → (read_claim S profile (read_claim S profile l a now_a made_a).1 b now_b made_b).0 ≡ reply gb
      → let k = interleaved profile l (a, now_a, made_a) ga (b, now_b, made_b) gb in
        (k.issued ≡ l.issued + faucet_daily_limit)
        × (balance_of S k a ≡ balance_of S l a + faucet_daily_limit)
        × (balance_of S k b ≡ balance_of S l b + faucet_daily_limit)
        × ((ids : List String)
            → Distinct ids
            → contains ids a ≡ true
            → contains ids b ≡ true
            → (sum_balances S.accounts k.accounts ids
                ≡ sum_balances S.accounts l.accounts ids + 2 * faucet_daily_limit)
              × (sum_balances S.accounts l.accounts ids ≡ l.issued → ¬ IsBacked S k))
  unfolding interleaved
  interleaved_loses_issue profile l a b now_a now_b made_a made_b ga gb v ne ra rb =
      let m : Ledger S = (read_claim S profile l a now_a made_a).1 in
      let n : Ledger S = (read_claim S profile m b now_b made_b).1 in
      let x = read_claim_lem profile l a now_a made_a ga v ra in
      let y = read_claim_lem profile m b now_b made_b gb (IsBacked-same S l m x.0 v) rb in
      let wa =
        write_claim-IsCredited S n a now_a ga (omega (arith, x.1, x.0.balances a, y.0.balances a))
          (omega (arith, x.3, balance_of-le S l a v, x.0.balances a, y.0.balances a)) in
      let p : Ledger S = (write_claim S n a now_a ga).1 in
      let wb =
        write_claim-IsCredited S p b now_b gb (omega (arith, y.1, y.0.balances b, wa.1.others b ne))
          (omega (
            arith,
            x.3,
            balance_of-le S l b v,
            x.0.balances b,
            y.0.balances b,
            wa.1.others b ne,
          )) in
      let k : Ledger S = (write_claim S p b now_b gb).1 in
      let count : k.issued ≡ l.issued + faucet_daily_limit =
        omega (arith, issued-write_claim p b now_b gb, y.2, x.0.issued) in
      let ne' : (b == a) ≡ false = ground (arith, eq_iff a b, eq_iff b a) in
      let sum =
        λ (ids : List String) (d : Distinct ids) (ia : contains ids a ≡ true)
            (ib : contains ids b ≡ true).
          let e : sum_balances S.accounts k.accounts ids
              ≡ sum_balances S.accounts l.accounts ids + 2 * faucet_daily_limit =
            ground (
              arith,
              wa.1.sums ids d,
              wb.1.sums ids d,
              SameMoney-sums S m n ids y.0,
              SameMoney-sums S l m ids x.0,
            ) in
          e in
      (
        count,
        omega (arith, wb.1.others a ne', wa.1.balance, x.0.balances a, y.0.balances a),
        omega (arith, wb.1.balance, wa.1.others b ne, x.0.balances b, y.0.balances b),
        (λ ids d ia ib.
            (sum ids d ia ib, (λ full w. omega (arith, sum ids d ia ib, w.backed ids d, count)))),
      )
