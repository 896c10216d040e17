-- ===== src/Api/Faucet/Issue.antt =====
-- What a claim of `handle_faucet` of src/main.rs does to the balances and to the count of issued
-- coins, once the checks on who asks are passed and no other request comes between its parts.
use hancoin.Prelude.{
  ℕ, ◌+◌, ◌≤◌, ◌<◌, ◌≡◌, refl, sym, ap, ◌∙◌, ◌⊎◌, inl, inr, String, none, some, arith, eq_iff,
  Option-cases,
}
use hancoin.Machine.{Profile, u64_mod, add_u64-some, Clock}
use hancoin.Stores.{get-insert_self}
use hancoin.Account.{Account, default, faucet_daily_limit}
use hancoin.Supply.{han_total_supply}
use hancoin.Ledger.{Stores, Ledger, stored, new}
use hancoin.Ledger.Balances.{
  balance_at-insert_self, balance_at-insert_ne, sum_balances-insert, sum_balances-empty,
}
use hancoin.Api.{Outcome, reply, reject, panic}
use hancoin.Api.Faucet.{
  Grant, FaucetReply, saturating_add, find_or_create, decide, read_claim, write_claim, claim,
}
use hancoin.Api.Faucet.Money.{
  balance_of, IsBacked, SameMoney, IsCredited, IsPaid, balance_of-le, SameMoney-sums, IsBacked-same,
  IsBacked-paid,
}

module _ (S : Stores) where
  pub find_or_create_lem :
      (l : Ledger S) (id : String) (created : Clock)
      → SameMoney S l (find_or_create S l id created).1
        × ((find_or_create S l id created).0.balance ≡ balance_of S l id)
        × ((stored S l id ≡ some (find_or_create S l id created).0)
            ⊎ ((stored S l id ≡ none) × ((find_or_create S l id created).0 ≡ default created)))
  unfolding find_or_create default
  find_or_create_lem l id created = elim (Option-cases (stored S l id)) [
    | inl e ↦
        rw (e, find_or_create)
          (
            record {
              issued = refl;
              balances = λ j.
                  ground (
                    arith,
                    e,
                    eq_iff id j,
                    S.accounts.get_insert l.accounts id j (default created),
                  );
            },
            ground arith,
            inr (refl, refl),
          )
    | inr (a, e) ↦
        rw (e, find_or_create)
          (record { issued = refl; balances = λ j. refl }, ground arith, inl refl)
  ]

  -- A claim is granted for the amount of a day, within the supply, on the account as it was read.
  pub decide_lem :
      (profile : Profile) (issued now : ℕ) (a : Account) (g : Grant)
      → issued ≤ han_total_supply
      → decide S profile issued now a ≡ reply g
      → (g.account ≡ a)
        × (g.new_issued ≡ issued + faucet_daily_limit)
        × (issued + faucet_daily_limit ≤ han_total_supply)
  unfolding decide
  decide_lem profile issued now a g h e =
      ground (arith, add_u64-some profile issued faucet_daily_limit)

  -- A write credits the account, if it stands as it was read and there is room in a `u64`.
  pub write_claim-IsCredited :
      (l : Ledger S) (id : String) (now : ℕ) (g : Grant)
      → g.account.balance ≡ balance_of S l id
      → balance_of S l id + faucet_daily_limit < u64_mod
      → ((write_claim S l id now g).0.balance ≡ balance_of S l id + faucet_daily_limit)
        × IsCredited S l (write_claim S l id now g).1 id
  unfolding write_claim
  write_claim-IsCredited l id now g b h =
      let paid : Account = record g.account {
        balance = saturating_add g.account.balance faucet_daily_limit;
        last_claim = now;
      } in
      let full : paid.balance ≡ balance_of S l id + faucet_daily_limit = ground arith in
      let self = balance_at-insert_self S.accounts l.accounts id paid in
      (
        full,
        record {
          balance = omega (arith, self);
          others = λ j e. balance_at-insert_ne S.accounts l.accounts id j paid e;
          sums = λ ids d. ground (arith, sum_balances-insert S.accounts l.accounts id paid ids d);
        },
      )

  write_claim-IsPaid :
      (l : Ledger S) (id : String) (now : ℕ) (g : Grant)
      → IsBacked S l
      → g.account.balance ≡ balance_of S l id
      → g.new_issued ≡ l.issued + faucet_daily_limit
      → l.issued + faucet_daily_limit ≤ han_total_supply
      → ((write_claim S l id now g).0.balance ≡ balance_of S l id + faucet_daily_limit)
        × IsPaid S l (write_claim S l id now g).1 id now
  unfolding write_claim
  write_claim-IsPaid l id now g v b n h =
      let c = write_claim-IsCredited l id now g b (omega (arith, balance_of-le S l id v)) in
      (
        c.0,
        record {
          issued = n;
          within = omega arith;
          credited = c.1;
          claimed = (_, get-insert_self S.accounts l.accounts id _, refl);
        },
      )

  IsPaid-same :
      (l m k : Ledger S) (id : String) (now : ℕ)
      → SameMoney S l m
      → IsPaid S m k id now
      → IsPaid S l k id now
  IsPaid-same l m k id now s p = record {
    issued = omega (arith, p.issued, s.issued);
    within = p.within;
    credited = record {
      balance = omega (arith, p.credited.balance, s.balances id);
      others = λ j e. p.credited.others j e ∙ s.balances j;
      sums = λ ids d. ground (arith, p.credited.sums ids d, SameMoney-sums S l m ids s);
    };
    claimed = p.claimed;
  }

  -- The two ways in which a claim ends.
  abbrev pub Claimed : Ledger S → String → ℕ → Outcome FaucetReply → Ledger S → Type 0
  Claimed l id now (reply a) k =
      (a.balance ≡ balance_of S l id + faucet_daily_limit)
      × (a.issued ≡ faucet_daily_limit)
      × IsPaid S l k id now
  Claimed l id now (reject e) k = SameMoney S l k
  Claimed l id now panic k = SameMoney S l k

  claim_at :
      (profile : Profile) (l : Ledger S) (id : String) (now : ℕ) (created : Clock)
      (o : Outcome Grant)
      → IsBacked S l
      → decide S profile l.issued now (find_or_create S l id created).0 ≡ o
      → Claimed l id now (claim S profile l id now created).0 (claim S profile l id now created).1
  unfolding claim read_claim
  claim_at profile l id now created (reply g) v e =
      let f = find_or_create_lem l id created in
      let m : Ledger S = (find_or_create S l id created).1 in
      let d = decide_lem profile l.issued now (find_or_create S l id created).0 g v.within e in
      let balance : g.account.balance ≡ balance_of S m id =
        ap (λ (a : Account). a.balance) d.0 ∙ f.1 ∙ sym (f.0.balances id) in
      let w =
        write_claim-IsPaid m id now g (IsBacked-same S l m f.0 v) balance
          (d.1 ∙ ap (λ n. n + faucet_daily_limit) (sym f.0.issued))
          (omega (arith, d.2, f.0.issued)) in
      rw (e, claim)
        (
          omega (arith, w.0, f.0.balances id),
          unfold write_claim in refl,
          IsPaid-same l m _ id now f.0 w.1,
        )
  claim_at profile l id now created (reject x) v e =
      rw (e, claim) (find_or_create_lem l id created).0
  claim_at profile l id now created panic v e = rw (e, claim) (find_or_create_lem l id created).0

  Claimed-IsBacked :
      (l k : Ledger S) (id : String) (now : ℕ) (o : Outcome FaucetReply)
      → IsBacked S l
      → Claimed l id now o k
      → IsBacked S k
  Claimed-IsBacked l k id now (reply a) v c = IsBacked-paid S l k id now c.2 v
  Claimed-IsBacked l k id now (reject e) v c = IsBacked-same S l k c v
  Claimed-IsBacked l k id now panic v c = IsBacked-same S l k c v

  -- In a ledger whose accounts are backed a claim either is granted, and then adds the amount of a day
  -- to the balance, to the count of issued coins, which stays within the supply, and to every sum that
  -- the account is in, and nothing to another account; or it changes no balance and no count.
  pub claim_lem :
      (profile : Profile) (l : Ledger S) (id : String) (now : ℕ) (created : Clock)
      → IsBacked S l
      → Claimed l id now (claim S profile l id now created).0 (claim S profile l id now created).1
  claim_lem profile l id now created v = claim_at profile l id now created _ v refl

  -- Granted or not, claims keep the ledger backed.
  pub claim-IsBacked :
      (profile : Profile) (l : Ledger S) (id : String) (now : ℕ) (created : Clock)
      → IsBacked S l
      → IsBacked S (claim S profile l id now created).1
  claim-IsBacked profile l id now created v =
      Claimed-IsBacked l _ id now _ v (claim_lem profile l id now created v)

  pub new-IsBacked : IsBacked S (new S)
  unfolding new
  new-IsBacked = record {
    within = omega arith;
    backed = λ ids d. omega (arith, sum_balances-empty S.accounts ids);
  }
