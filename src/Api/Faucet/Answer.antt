-- ===== src/Api/Faucet/Answer.antt =====
-- What a claim of `handle_faucet` of src/main.rs answers.
use hancoin.Prelude.{ℕ, ◌+◌, ◌≤◌, ◌<◌, ◌≡◌, String, none, some, arith, ltb, if◌then◌else◌}
use hancoin.Machine.{Profile, u64_mod, sub_u64-some, add_u64-some, Clock}
use hancoin.Account.{default, faucet_cooldown, faucet_daily_limit}
use hancoin.Supply.{han_total_supply}
use hancoin.Ledger.{Stores, Ledger, stored}
use hancoin.Api.{faucet_cooldown_not_over, total_supply_limit_reached, reply, reject}
use hancoin.Api.Faucet.{find_or_create, decide, read_claim, write_claim, claim}
use hancoin.Api.Faucet.Money.{balance_of, IsBacked, balance_of-le}
use hancoin.Api.Faucet.Issue.{find_or_create_lem}

module _ (S : Stores) where
  -- When the account was paid last; an account that is not there has never been.
  abbrev pub last_claim_of : Ledger S → String → ℕ
  last_claim_of l id = elim (stored S l id) [ none ↦ 0 | some a ↦ a.last_claim ]

  pub last_claim-find_or_create :
      (l : Ledger S) (id : String) (created : Clock)
      → (find_or_create S l id created).0.last_claim ≡ last_claim_of l id
  unfolding find_or_create default
  last_claim-find_or_create l id created = ground arith

  -- With a clock at or after the last claim, the answer in either build: too early for less than a
  -- day, else the end of the supply if the amount does not fit, else the new balance.
  pub claim_answer :
      (profile : Profile) (l : Ledger S) (id : String) (now : ℕ) (created : Clock)
      → IsBacked S l
      → last_claim_of l id ≤ now
      → now < u64_mod
      → (claim S profile l id now created).0 ≡ (
          if ltb now (last_claim_of l id + faucet_cooldown)
          then reject faucet_cooldown_not_over
          else if ltb han_total_supply (l.issued + faucet_daily_limit)
          then reject total_supply_limit_reached
          else reply (record {
            balance = balance_of S l id + faucet_daily_limit;
            issued = faucet_daily_limit;
          }))
  unfolding claim read_claim decide write_claim
  claim_answer profile l id now created v h b = ground (
    arith,
    last_claim-find_or_create l id created,
    (find_or_create_lem S l id created).1,
    balance_of-le S l id v,
    v.within,
    sub_u64-some profile now (last_claim_of l id),
    add_u64-some profile l.issued faucet_daily_limit,
  )
