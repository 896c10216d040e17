-- ===== src/Api/Faucet/Behind.antt =====
-- Claims of `handle_faucet` of src/main.rs between reads of the ledger through the cache of
-- src/types.rs: how far the cache may be behind.
use hancoin.Prelude.{
  ℕ, ◌≤◌, ◌≡◌, refl, sym, ap, ◌∙◌, String, List, [], ◌∷◌, some, arith, ◌⊎◌, eq_iff, Bool-cases,
  Option-cases, inl, inr, ◌==◌,
}
use hancoin.Machine.{Profile, Clock}
use hancoin.Stores.{peek-put}
use hancoin.Account.{Account}
use hancoin.Supply.{han_total_supply}
use hancoin.Ledger.{
  Stores, Ledger, Scan, stored, cached, new, read_cache, load, scan_cache, load_misses, get_account,
  get_accounts_batch,
}
use hancoin.Ledger.Cache.{SameData, read_cache_lem, load-SameData, load_value}
use hancoin.Ledger.Batch.{scan_cache_lem}
use hancoin.Api.{Outcome, reply, reject, panic}
use hancoin.Api.Faucet.{FaucetReply, claim}
use hancoin.Api.Faucet.Others.{cache-claim}
use hancoin.Api.Faucet.Money.{balance_of, IsBacked, balance_of-le, IsBacked-same, SameMoney}
use hancoin.Api.Faucet.Issue.{Claimed, claim_lem, claim-IsBacked, new-IsBacked}

-- A claim, at a time, or a read through the cache.
pub data Use : Type 0 where
  claims : (id : String) (now : ℕ) (created : Clock) → Use
  reads : (id : String) → Use
  reads_many : (ids : List String) → Use

module _ (S : Stores) (profile : Profile) where
  unfoldable pub apply : Ledger S → Use → Ledger S
  apply l (claims id now created) = (claim S profile l id now created).1
  apply l (reads id) = (get_account S l id).1
  apply l (reads_many ids) = (get_accounts_batch S l ids).1

  unfoldable pub apply_all : Ledger S → List Use → Ledger S
  apply_all l [] = l
  apply_all l (u ∷ us) = apply_all (apply l u) us

  -- The money is backed, and no account has more in the cache than in the map.
  record IsBehind (l : Ledger S) : Type 0 where
    backed : IsBacked S l
    at_id : (id : String) (a : Account) → cached S l id ≡ some a → a.balance ≤ balance_of S l id

  same_money : {l k : Ledger S} → SameData S l k → SameMoney S l k
  same_money d = record {
    issued = d.issued;
    balances = λ id. ground (arith, ap (λ m. S.accounts.get m id) d.accounts);
  }

  -- The same data, and nothing in the cache but what was there or is stored.
  IsBehind-read :
      (l k : Ledger S)
      → SameData S l k
      → ((id : String) (a : Account)
          → cached S k id ≡ some a
          → (cached S l id ≡ some a) ⊎ (stored S l id ≡ some a))
      → IsBehind l
      → IsBehind k
  IsBehind-read l k d c v = record {
    backed = IsBacked-same S l k (same_money d) v.backed;
    at_id = λ id a e. elim (c id a e) [
      | inl old ↦ omega (arith, (same_money d).balances id, v.at_id id a old)
      | inr loaded ↦ ground (arith, (same_money d).balances id, loaded)
    ];
  }

  read_cache-IsBehind : (l : Ledger S) (id : String) → IsBehind l → IsBehind (read_cache S l id).1
  read_cache-IsBehind l id v =
      let r = read_cache_lem S l id in IsBehind-read l _ r.1 (λ j a e. inl (sym (r.2 j) ∙ e)) v

  load-cases :
      (l : Ledger S) (id j : String) (a : Account)
      → cached S (load S l id).1 j ≡ some a
      → (cached S l j ≡ some a) ⊎ (stored S l j ≡ some a)
  unfolding load
  load-cases l id j a e = elim (Option-cases (S.accounts.get l.accounts id)) [
    | inl missing ↦ inl (ground (arith, missing, e))
    | inr (b, found) ↦ elim (peek-put S.cache l.cache id j b a (ground (arith, found, e))) [
      | inl (same, value) ↦ inr (ground (arith, found, same, value))
      | inr old ↦ inl old
    ]
  ]

  load-IsBehind : (l : Ledger S) (id : String) → IsBehind l → IsBehind (load S l id).1
  load-IsBehind l id v = IsBehind-read l _ (load-SameData S l id) (load-cases l id) v

  get_account-IsBehind : (l : Ledger S) (id : String) → IsBehind l → IsBehind (get_account S l id).1
  unfolding get_account
  get_account-IsBehind l id v = elim (Option-cases (read_cache S l id).0) [
    | inl miss ↦ rw (miss, get_account) (load-IsBehind _ id (read_cache-IsBehind l id v))
    | inr (a, hit) ↦ rw (hit, get_account) (read_cache-IsBehind l id v)
  ]

  load_misses-IsBehind :
      (l : Ledger S) (ids : List String) (result : List (String × Account))
      → IsBehind l
      → IsBehind (load_misses S result l ids).1
  unfolding load_misses
  load_misses-IsBehind l [] result v = v
  load_misses-IsBehind l (id ∷ ids) result v =
      load_misses-IsBehind (load S l id).1 ids _ (load-IsBehind l id v)

  get_accounts_batch-IsBehind :
      (l : Ledger S) (ids : List String) → IsBehind l → IsBehind (get_accounts_batch S l ids).1
  unfolding get_accounts_batch
  get_accounts_batch-IsBehind l ids v =
      let s : Scan S = record { result = []; cache_miss = []; ledger = l } in
      let r = scan_cache_lem S s ids in
      load_misses-IsBehind (scan_cache S s ids).ledger _ _
        (IsBehind-read l _ r.data_same (λ j a e. inl (sym (r.cache_same j) ∙ e)) v)

  -- A claim takes nothing from any account.
  balance_of-grows :
      (l k : Ledger S) (id j : String) (now : ℕ) (o : Outcome FaucetReply)
      → Claimed S l id now o k
      → balance_of S l j ≤ balance_of S k j
  balance_of-grows l k id j now (reply a) c = elim (Bool-cases (id == j)) [
    | inl same ↦ ground (arith, eq_iff id j, c.2.credited.balance)
    | inr other ↦ omega (arith, c.2.credited.others j other)
  ]
  balance_of-grows l k id j now (reject e) c = omega (arith, c.balances j)
  balance_of-grows l k id j now panic c = omega (arith, c.balances j)

  claim-IsBehind :
      (l : Ledger S) (id : String) (now : ℕ) (created : Clock)
      → IsBehind l
      → IsBehind (claim S profile l id now created).1
  claim-IsBehind l id now created v = record {
    backed = claim-IsBacked S profile l id now created v.backed;
    at_id = λ j a e.
        let old = ap (λ c. S.cache.peek c j) (sym (cache-claim S profile l id now created)) ∙ e in
        omega (
          arith,
          v.at_id j a old,
          balance_of-grows l _ id j now _ (claim_lem S profile l id now created v.backed),
        );
  }

  apply-IsBehind : (l : Ledger S) (u : Use) → IsBehind l → IsBehind (apply l u)
  unfolding apply
  apply-IsBehind l (claims id now created) v = claim-IsBehind l id now created v
  apply-IsBehind l (reads id) v = get_account-IsBehind l id v
  apply-IsBehind l (reads_many ids) v = get_accounts_batch-IsBehind l ids v

  apply_all-IsBehind : (l : Ledger S) (us : List Use) → IsBehind l → IsBehind (apply_all l us)
  unfolding apply_all
  apply_all-IsBehind l [] v = v
  apply_all-IsBehind l (u ∷ us) v = apply_all-IsBehind (apply l u) us (apply-IsBehind l u v)

  new-IsBehind : IsBehind (new S)
  unfolding new
  new-IsBehind = record {
    backed = new-IsBacked S;
    at_id = λ id a e. ground (arith, S.cache.peek_empty id);
  }

  -- What `get_account` answers is in the cache or in the map.
  get_account-cases :
      (l : Ledger S) (id : String) (a : Account)
      → (get_account S l id).0 ≡ some a
      → (cached S l id ≡ some a) ⊎ (stored S l id ≡ some a)
  unfolding get_account
  get_account-cases l id a e =
      let r = read_cache_lem S l id in
      let k : Ledger S = (read_cache S l id).1 in
      elim (Option-cases (read_cache S l id).0) [
        | inl miss ↦
            let answer : (get_account S l id).0 ≡ (load S k id).0 = rw (miss, get_account) refl in
            inr (
              ap (λ m. S.accounts.get m id) (sym r.1.accounts)
              ∙ sym (load_value S k id)
              ∙ sym answer
              ∙ e)
        | inr (b, hit) ↦
            let answer : (get_account S l id).0 ≡ some b = rw (hit, get_account) refl in
            inl (sym r.0 ∙ hit ∙ sym answer ∙ e)
      ]

  -- From a new ledger, whatever claims and reads through the cache come in whatever order and at
  -- whatever times, `get_account` never answers an account with more than it has, which is no more than
  -- was issued, which is no more than the supply.
  pub never_overstated :
      (us : List Use) (id : String) (a : Account)
      → (get_account S (apply_all (new S) us) id).0 ≡ some a
      → (a.balance ≤ balance_of S (apply_all (new S) us) id)
        × (balance_of S (apply_all (new S) us) id ≤ (apply_all (new S) us).issued)
        × ((apply_all (new S) us).issued ≤ han_total_supply)
  never_overstated us id a e =
      let l : Ledger S = apply_all (new S) us in
      let v = apply_all-IsBehind (new S) us new-IsBehind in
      let below : a.balance ≤ balance_of S l id = elim (get_account-cases l id a e) [
        | inl hit ↦ v.at_id id a hit
        | inr loaded ↦ ground (arith, loaded)
      ] in
      (below, balance_of-le S l id v.backed, v.backed.within)
