-- ===== src/Api/Faucet/Money.antt =====
-- The money in a ledger: balances, issued coins, and how the claims of src/main.rs change them.
use hancoin.Prelude.{
  ℕ, ◌+◌, ◌≤◌, ◌≡◌, refl, String, false, List, [], ◌∷◌, some, arith, contains, Distinct,
  if◌then◌else◌, ◌==◌,
}
use hancoin.Account.{Account, faucet_daily_limit}
use hancoin.Supply.{han_total_supply}
use hancoin.Ledger.{Stores, Ledger, stored}
use hancoin.Ledger.Balances.{balance_at, sum_balances}

module _ (S : Stores) where
  -- The balance of an account of a ledger; 0 if it is not there.
  abbrev pub balance_of : Ledger S → String → ℕ
  balance_of l id = balance_at S.accounts l.accounts id

  -- No more coins are issued than there may be, and the accounts hold no more than was issued:
  -- whatever different accounts are added up.
  pub record IsBacked (l : Ledger S) : Type 0 where
    pub within : l.issued ≤ han_total_supply
    pub backed :
        (ids : List String) → Distinct ids → sum_balances S.accounts l.accounts ids ≤ l.issued

  -- The same issued coins, and the same balance of every account.
  pub record SameMoney (l k : Ledger S) : Type 0 where
    pub issued : k.issued ≡ l.issued
    pub balances : (id : String) → balance_of k id ≡ balance_of l id

  -- The amount of a day more on one account, and nothing on the others.
  pub record IsCredited (l k : Ledger S) (id : String) : Type 0 where
    pub balance : balance_of k id ≡ balance_of l id + faucet_daily_limit
    pub others : (j : String) → (id == j) ≡ false → balance_of k j ≡ balance_of l j
    pub sums :
        (ids : List String)
        → Distinct ids
        → sum_balances S.accounts k.accounts ids
          ≡ sum_balances S.accounts l.accounts ids
            + (if contains ids id then faucet_daily_limit else 0)

  -- What a claim that goes through does.
  pub record IsPaid (l k : Ledger S) (id : String) (now : ℕ) : Type 0 where
    pub issued : k.issued ≡ l.issued + faucet_daily_limit
    pub within : k.issued ≤ han_total_supply
    pub credited : IsCredited l k id
    pub claimed : (a : Account) × (stored S k id ≡ some a) × (a.last_claim ≡ now)

  -- Nobody has more than was issued.
  pub balance_of-le : (l : Ledger S) (id : String) → IsBacked l → balance_of l id ≤ l.issued
  unfolding sum_balances
  balance_of-le l id v = omega (arith, v.backed (id ∷ []) (refl, tt))

  pub SameMoney-sums :
      (l k : Ledger S) (ids : List String)
      → SameMoney l k
      → sum_balances S.accounts k.accounts ids ≡ sum_balances S.accounts l.accounts ids
  unfolding sum_balances
  SameMoney-sums l k [] m = refl
  SameMoney-sums l k (id ∷ ids) m = omega (arith, m.balances id, SameMoney-sums l k ids m)

  pub IsBacked-same : (l k : Ledger S) → SameMoney l k → IsBacked l → IsBacked k
  IsBacked-same l k m v = record {
    within = omega (arith, v.within, m.issued);
    backed = λ ids d. omega (arith, v.backed ids d, m.issued, SameMoney-sums l k ids m);
  }

  pub IsBacked-paid :
      (l k : Ledger S) (id : String) (now : ℕ) → IsPaid l k id now → IsBacked l → IsBacked k
  IsBacked-paid l k id now p v = record {
    within = p.within;
    backed = λ ids d. ground (arith, v.backed ids d, p.issued, p.credited.sums ids d);
  }
