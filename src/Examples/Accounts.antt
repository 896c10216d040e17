-- ===== src/Examples/Accounts.antt =====
-- Accounts and the supply of src/types.rs at concrete inputs.
use hancoin.Prelude.{
  ℕ, ◌+◌, ◌≤◌, ◌<◌, ◌≡◌, refl, ◌↔◌, ◌⊎◌, true, false, [], ◌∷◌, some, arith, length,
}
use hancoin.Machine.{Profile}
use hancoin.Account.{
  Account, TxRef, active, claimable, too_frequent, can_claim_faucet, faucet_cooldown,
  add_transaction, max_tx_history, is_valid_account_id,
}
use hancoin.Account.History.{keep_last, add_all, transactions-add_all}
use hancoin.Account.Cooldown.{can_claim_faucet_exact}
use hancoin.Supply.{
  yearly_distribution, percent_of_supply, han_total_supply, distributed, distributed_bounds,
}

abbrev paid_at : ℕ → Account
paid_at t = record {
  balance = 100000;
  last_claim = t;
  transactions = [];
  created_at = 0;
  last_active = 0;
  nonce = 0;
  status = active;
}

abbrev coffee : TxRef
coffee = record { tx_id = "t1"; timestamp = 5; amount = 3; is_incoming = false }

-- 32 characters of the class pass; a zero among them does not.
identifiers :
    (is_valid_account_id "123456789ABCDEFGHJKLMNPQRSTUVWXY" ≡ true)
    × (is_valid_account_id "023456789ABCDEFGHJKLMNPQRSTUVWXY" ≡ false)
unfolding is_valid_account_id
identifiers = (refl, refl)

one_entry : (add_transaction (paid_at 0) coffee (some 7)).transactions ≡ coffee ∷ []
unfolding add_transaction
one_entry = refl

third_year : yearly_distribution 3 ≡ some 50000000000
unfolding yearly_distribution percent_of_supply
third_year = refl

transactions-add_all_example :
    ((add_all (paid_at 0) ((coffee, some 7) ∷ [])).transactions
      ≡ keep_last max_tx_history (coffee ∷ []))
    × (length (add_all (paid_at 0) ((coffee, some 7) ∷ [])).transactions ≤ max_tx_history)
transactions-add_all_example =
    transactions-add_all (paid_at 0) ((coffee, some 7) ∷ []) (omega arith)

can_claim_faucet_exact_example :
    ((1000 + faucet_cooldown ≤ 1500)
      × (can_claim_faucet Profile.release (paid_at 1000) (some 1500) ≡ some claimable))
    ⊎ ((wait : ℕ) × (can_claim_faucet Profile.release (paid_at 1000) (some 1500)
          ≡ some (too_frequent wait))
        × (0 < wait)
        × (wait ≤ faucet_cooldown)
        × (1500 + wait ≡ 1000 + faucet_cooldown))
can_claim_faucet_exact_example =
    can_claim_faucet_exact Profile.release (paid_at 1000) 1500 (omega arith) (omega arith)

distributed_bounds_example :
    (t : ℕ) × (distributed 7 ≡ some t)
    × (t ≤ han_total_supply)
    × ((105 ≤ 7) ↔ (t ≡ han_total_supply))
distributed_bounds_example = distributed_bounds 7
