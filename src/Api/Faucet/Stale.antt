-- ===== src/Api/Faucet/Stale.antt =====
-- What a claim of `handle_faucet` of src/main.rs, which writes the map of accounts, does to the reads
-- of `get_account` of src/types.rs, which asks the cache first.
use hancoin.Prelude.{
  ℕ, ◌+◌, ◌≡◌, refl, subst, sym, ap, ◌∙◌, String, none, some, arith, ◌==◌, eq_iff, inl, inr,
  Bool-cases,
}
use hancoin.Machine.{Profile, Clock}
use hancoin.Account.{Account, faucet_daily_limit}
use hancoin.Ledger.{Stores, Ledger, stored, cached, read_cache, get_account}
use hancoin.Ledger.Cache.{IsCoherent, read_cache_lem}
use hancoin.Api.{reply}
use hancoin.Api.Faucet.{FaucetReply, claim}
use hancoin.Api.Faucet.Others.{cache-claim, stored-claim_ne}
use hancoin.Api.Faucet.Money.{balance_of, IsBacked}
use hancoin.Api.Faucet.Issue.{Claimed, claim_lem}

module _ (S : Stores) (profile : Profile) (l : Ledger S) (id : String) (now : ℕ)
    (created : Clock) where
  -- A claim on an account that is not in the cache keeps the cache coherent.
  pub claim-IsCoherent :
      cached S l id ≡ none → IsCoherent S l → IsCoherent S (claim S profile l id now created).1
  claim-IsCoherent miss v = record {
    at_id = λ j a e. elim (Bool-cases (id == j)) [
      | inl same ↦ ground (arith, eq_iff id j, miss, cache-claim S profile l id now created)
      | inr other ↦
          stored-claim_ne S profile l id now created j other
          ∙ v.at_id j a
              (ap (λ c. S.cache.peek c j) (sym (cache-claim S profile l id now created)) ∙ e)
    ];
  }

  get_account-cached :
      (k : Ledger S) (a : Account) → cached S k id ≡ some a → (get_account S k id).0 ≡ some a
  unfolding get_account
  get_account-cached k a e =
      let r : (read_cache S k id).0 ≡ some a = (read_cache_lem S k id).0 ∙ e in
      rw (r, get_account) refl

  balance_of-stored : (a : Account) → stored S l id ≡ some a → balance_of S l id ≡ a.balance
  balance_of-stored a e = ground (arith, e)

  -- After a granted claim on an account that is in a coherent cache, `get_account` goes on to answer the
  -- account as it was before: its balance lacks the amount that the map has.
  pub get_account-claim :
      (old : Account) (a : FaucetReply)
      → IsBacked S l
      → IsCoherent S l
      → cached S l id ≡ some old
      → (claim S profile l id now created).0 ≡ reply a
      → ((get_account S (claim S profile l id now created).1 id).0 ≡ some old)
        × (balance_of S (claim S profile l id now created).1 id ≡ old.balance + faucet_daily_limit)
  get_account-claim old a v c hit granted =
      let k : Ledger S = (claim S profile l id now created).1 in
      let paid : Claimed S l id now (reply a) k =
        subst (λ o. Claimed S l id now o k) granted (claim_lem S profile l id now created v) in
      let was : stored S l id ≡ some old = c.at_id id old hit in
      (
        get_account-cached k old
            (ap (λ m. S.cache.peek m id) (cache-claim S profile l id now created) ∙ hit),
        omega (arith, paid.2.credited.balance, balance_of-stored old was),
      )
