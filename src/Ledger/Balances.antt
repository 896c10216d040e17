-- ===== src/Ledger/Balances.antt =====
-- Sums of balances over the map of accounts of src/types.rs.
use hancoin.Prelude.{
  ℕ, ◌+◌, ◌≡◌, refl, ◌⊎◌, inl, String, true, false, List, [], ◌∷◌, none, some, arith, contains,
  Distinct, ◌==◌, eq_iff,
}
use hancoin.Stores.{DashMap, get-insert_self, get-insert_ne}
use hancoin.Account.{Account}

module _ (D : DashMap Account) where
  -- The balance of an account; 0 if it is not there.
  abbrev pub balance_at : D.Map → String → ℕ
  balance_at m id = elim (D.get m id) [ none ↦ 0 | some a ↦ a.balance ]

  unfoldable pub sum_balances : D.Map → List String → ℕ
  sum_balances m [] = 0
  sum_balances m (id ∷ ids) = balance_at m id + sum_balances m ids

  pub balance_at-insert_self :
      (m : D.Map) (id : String) (a : Account) → balance_at (D.insert m id a) id ≡ a.balance
  balance_at-insert_self m id a = ground (arith, get-insert_self D m id a)

  pub balance_at-insert_ne :
      (m : D.Map) (id j : String) (a : Account)
      → (id == j) ≡ false
      → balance_at (D.insert m id a) j ≡ balance_at m j
  balance_at-insert_ne m id j a h = ground (arith, get-insert_ne D m id j a)

  -- A write changes a sum over different accounts by what it changes of its own account.
  pub sum_balances-insert :
      (m : D.Map) (id : String) (a : Account) (ids : List String)
      → Distinct ids
      → ((contains ids id ≡ false) × (sum_balances (D.insert m id a) ids ≡ sum_balances m ids))
        ⊎ ((contains ids id ≡ true)
            × (sum_balances (D.insert m id a) ids + balance_at m id
                ≡ sum_balances m ids + a.balance))
  unfolding sum_balances
  sum_balances-insert m id a [] d = inl (refl, refl)
  sum_balances-insert m id a (j ∷ ids) d = ground (
    arith,
    sum_balances-insert m id a ids d.1,
    eq_iff j id,
    eq_iff id j,
    balance_at-insert_self m id a,
    balance_at-insert_ne m id j a,
  )

  pub sum_balances-empty : (ids : List String) → sum_balances D.empty ids ≡ 0
  unfolding sum_balances
  sum_balances-empty [] = refl
  sum_balances-empty (id ∷ ids) = ground (arith, D.get_empty id, sum_balances-empty ids)
