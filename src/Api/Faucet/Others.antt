-- ===== src/Api/Faucet/Others.antt =====
-- What a claim of `handle_faucet` of src/main.rs leaves as it is: the cache, and the other accounts.
use hancoin.Prelude.{ℕ, ◌≡◌, refl, ◌∙◌, String, false, arith, ◌==◌}
use hancoin.Machine.{Profile, Clock}
use hancoin.Stores.{get-insert_ne}
use hancoin.Account.{default}
use hancoin.Ledger.{Stores, Ledger, stored}
use hancoin.Api.{Outcome, reply, reject, panic}
use hancoin.Api.Faucet.{Grant, find_or_create, decide, read_claim, write_claim, claim}

module _ (S : Stores) (profile : Profile) (l : Ledger S) (id : String) (now : ℕ)
    (created : Clock) where
  -- A claim leaves the cache alone.
  pub cache-claim : (claim S profile l id now created).1.cache ≡ l.cache
  unfolding claim read_claim write_claim find_or_create
  cache-claim = ground arith

  stored-find_or_create :
      (j : String) → (id == j) ≡ false → stored S (find_or_create S l id created).1 j ≡ stored S l j
  unfolding find_or_create
  stored-find_or_create j e =
      ground (arith, get-insert_ne S.accounts l.accounts id j (default created))

  stored-claim_at :
      (j : String) (o : Outcome Grant)
      → (id == j) ≡ false
      → decide S profile l.issued now (find_or_create S l id created).0 ≡ o
      → stored S (claim S profile l id now created).1 j ≡ stored S l j
  unfolding claim read_claim write_claim
  stored-claim_at j (reply g) e d =
      rw (d, claim)
        (get-insert_ne S.accounts (find_or_create S l id created).1.accounts id j _ e
          ∙ stored-find_or_create j e)
  stored-claim_at j (reject x) e d = rw (d, claim) (stored-find_or_create j e)
  stored-claim_at j panic e d = rw (d, claim) (stored-find_or_create j e)

  pub stored-claim_ne :
      (j : String)
      → (id == j) ≡ false
      → stored S (claim S profile l id now created).1 j ≡ stored S l j
  stored-claim_ne j e = stored-claim_at j _ e refl
