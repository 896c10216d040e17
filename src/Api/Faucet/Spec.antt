-- ===== src/Api/Faucet/Spec.antt =====
-- The faucet of src/main.rs as a machine on balances: what an account has, when it was paid last, and
-- how much is issued, with no maps, no cache and no 64-bit arithmetic.
use hancoin.Prelude.{
  ℕ, ◌+◌, ◌≤◌, ◌<◌, ◌≡◌, refl, subst, fun_ext, ◌∙◌, inl, inr, String, false, arith, ltb, ◌==◌,
  eq_iff, if◌then◌else◌, Bool-cases,
}
use hancoin.Stores.{get-insert_self}
use hancoin.Machine.{Profile, u64_mod, Clock}
use hancoin.Account.{default, faucet_cooldown, faucet_daily_limit}
use hancoin.Supply.{han_total_supply}
use hancoin.Ledger.{Stores, Ledger}
use hancoin.Api.{
  faucet_cooldown_not_over, total_supply_limit_reached, HancoinError, Outcome, reply, reject, panic,
}
use hancoin.Api.Faucet.{Grant, FaucetReply, find_or_create, decide, read_claim, claim}
use hancoin.Api.Faucet.Money.{balance_of, IsBacked}
use hancoin.Api.Faucet.Issue.{Claimed, claim_lem}
use hancoin.Api.Faucet.Others.{stored-claim_ne}
use hancoin.Api.Faucet.Answer.{last_claim_of, claim_answer}

pub record Faucet : Type 0 where
  pub balance : String → ℕ
  pub last_claim : String → ℕ
  pub issued : ℕ

abbrev pub set_at : (String → ℕ) → String → ℕ → String → ℕ
set_at f id n = λ j. if id == j then n else f j

-- A payment, at a time.
abbrev pub paid : Faucet → String → ℕ → Faucet
paid f id now = record {
  balance = set_at f.balance id (f.balance id + faucet_daily_limit);
  last_claim = set_at f.last_claim id now;
  issued = f.issued + faucet_daily_limit;
}

-- A claim: at most one payment a day for each account, and all payments within the supply.
abbrev pub draw : Faucet → String → ℕ → Outcome FaucetReply × Faucet
draw f id now =
    if ltb now (f.last_claim id + faucet_cooldown)
    then (reject faucet_cooldown_not_over, f)
    else if ltb han_total_supply (f.issued + faucet_daily_limit)
    then (reject total_supply_limit_reached, f)
    else (
      reply (record { balance = f.balance id + faucet_daily_limit; issued = faucet_daily_limit }),
      paid f id now,
    )

module _ (S : Stores) where
  -- What a ledger is to the faucet.
  abbrev pub view : Ledger S → Faucet
  view l = record { balance = balance_of S l; last_claim = last_claim_of S l; issued = l.issued }

  module _ (profile : Profile) (l : Ledger S) (id : String) (now : ℕ) (created : Clock) where
    abbrev after : Ledger S
    after = (claim S profile l id now created).1

    last_claim_of-find_or_create :
        last_claim_of S (find_or_create S l id created).1 id ≡ last_claim_of S l id
    unfolding find_or_create default
    last_claim_of-find_or_create =
        ground (arith, get-insert_self S.accounts l.accounts id (default created))

    last_claim-rejected_at :
        (o : Outcome Grant) (e : HancoinError)
        → decide S profile l.issued now (find_or_create S l id created).0 ≡ o
        → (claim S profile l id now created).0 ≡ reject e
        → last_claim_of S after id ≡ last_claim_of S l id
    unfolding claim read_claim
    last_claim-rejected_at (reply g) e d r = absurd (ground (arith, d, r))
    last_claim-rejected_at (reject x) e d r = rw (d, claim, after) last_claim_of-find_or_create
    last_claim-rejected_at panic e d r = rw (d, claim, after) last_claim_of-find_or_create

    last_claim-claim_ne :
        (j : String) → (id == j) ≡ false → last_claim_of S after j ≡ last_claim_of S l j
    last_claim-claim_ne j e = ground (arith, stored-claim_ne S profile l id now created j e)

    same_last :
        (e : HancoinError)
        → (claim S profile l id now created).0 ≡ reject e
        → (j : String) → last_claim_of S after j ≡ last_claim_of S l j
    same_last e r j = elim (Bool-cases (id == j)) [
      | inl named ↦ ground (arith, eq_iff id j, last_claim-rejected_at _ e refl r)
      | inr other ↦ last_claim-claim_ne j other
    ]

    view-rejected :
        (e : HancoinError)
        → IsBacked S l
        → (claim S profile l id now created).0 ≡ reject e
        → view after ≡ view l
    view-rejected e v r =
        let same : Claimed S l id now (reject e) after =
          subst (λ o. Claimed S l id now o after) r (claim_lem S profile l id now created v) in
        λ i. record {
          balance = fun_ext same.balances i;
          last_claim = fun_ext (same_last e r) i;
          issued = same.issued i;
        }

    paid_balance :
        (a : FaucetReply)
        → Claimed S l id now (reply a) after
        → (j : String) → balance_of S after j ≡ (paid (view l) id now).balance j
    paid_balance a c j = elim (Bool-cases (id == j)) [
      | inl named ↦ ground (arith, eq_iff id j, c.2.credited.balance)
      | inr other ↦ ground (arith, c.2.credited.others j other)
    ]

    paid_last :
        (a : FaucetReply)
        → Claimed S l id now (reply a) after
        → (j : String) → last_claim_of S after j ≡ (paid (view l) id now).last_claim j
    paid_last a c j = elim (Bool-cases (id == j)) [
      | inl named ↦ ground (arith, eq_iff id j, c.2.claimed)
      | inr other ↦ ground (arith, last_claim-claim_ne j other)
    ]

    view-paid :
        (a : FaucetReply)
        → IsBacked S l
        → (claim S profile l id now created).0 ≡ reply a
        → view after ≡ paid (view l) id now
    view-paid a v r =
        let c : Claimed S l id now (reply a) after =
          subst (λ o. Claimed S l id now o after) r (claim_lem S profile l id now created v) in
        λ i. record {
          balance = fun_ext (paid_balance a c) i;
          last_claim = fun_ext (paid_last a c) i;
          issued = c.2.issued i;
        }

    -- One claim does to what the ledger is to the faucet what `draw` does, with the same answer.
    pub claim-draw :
        IsBacked S l
        → last_claim_of S l id ≤ now
        → now < u64_mod
        → ((claim S profile l id now created).0 ≡ (draw (view l) id now).0)
          × (view after ≡ (draw (view l) id now).1)
    claim-draw v h b =
        let r = claim_answer S profile l id now created v h b in
        elim (Bool-cases (ltb now (last_claim_of S l id + faucet_cooldown))) [
          | inl early ↦ let x = r ∙ rw early refl in rw early (x, view-rejected _ v x)
          | inr late ↦ elim (Bool-cases (ltb han_total_supply (l.issued + faucet_daily_limit))) [
            | inl full ↦
                let x = r ∙ rw (late, full) refl in rw (late, full) (x, view-rejected _ v x)
            | inr room ↦ let x = r ∙ rw (late, room) refl in rw (late, room) (x, view-paid _ v x)
          ]
        ]
