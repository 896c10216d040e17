-- ===== src/Ledger/Cache.antt =====
-- The cache before the accounts of a ledger, `get_account` of src/types.rs.
use hancoin.Prelude.{◌≡◌, ◌≢◌, ◌⊎◌, inl, inr, String, sym, ap, ◌∙◌, none, some, arith, Option-cases}
use hancoin.Stores.{peek-put}
use hancoin.Account.{Account}
use hancoin.Ledger.{Stores, Ledger, stored, cached, bump, new, read_cache, load, get_account}

module _ (S : Stores) where
  -- What the cache holds is what the map holds.
  pub record IsCoherent (l : Ledger S) : Type 0 where
    pub at_id : (id : String) (a : Account) → cached S l id ≡ some a → stored S l id ≡ some a

  -- The parts of a ledger that reads leave alone.
  pub record SameData (l k : Ledger S) : Type 0 where
    pub accounts : k.accounts ≡ l.accounts
    pub issued : k.issued ≡ l.issued
    pub transactions : k.transactions ≡ l.transactions
    pub moments : k.moments ≡ l.moments

  pub SameData-trans : {l k n : Ledger S} → SameData l k → SameData k n → SameData l n
  SameData-trans a b = record {
    accounts = b.accounts ∙ a.accounts;
    issued = b.issued ∙ a.issued;
    transactions = b.transactions ∙ a.transactions;
    moments = b.moments ∙ a.moments;
  }

  pub new-IsCoherent : IsCoherent (new S)
  unfolding new
  new-IsCoherent = record { at_id = λ id a e. cc (S.cache.peek_empty id) }

  -- A read of the cache gives what it holds, and changes neither that nor the data.
  pub read_cache_lem :
      (l : Ledger S) (id : String)
      → ((read_cache S l id).0 ≡ cached S l id)
        × SameData l (read_cache S l id).1
        × ((j : String) → cached S (read_cache S l id).1 j ≡ cached S l j)
  unfolding read_cache
  read_cache_lem l id = (
    ground (arith, S.cache.get_value l.cache id),
    record {
      accounts = ground arith;
      issued = ground arith;
      transactions = ground arith;
      moments = ground arith;
    },
    (λ j. ground (arith, S.cache.peek_get l.cache id j)),
  )

  pub load-SameData : (l : Ledger S) (id : String) → SameData l (load S l id).1
  unfolding load
  load-SameData l id = record {
    accounts = ground arith;
    issued = ground arith;
    transactions = ground arith;
    moments = ground arith;
  }

  pub load_value : (l : Ledger S) (id : String) → (load S l id).0 ≡ stored S l id
  unfolding load
  load_value l id = ground arith

  -- What was loaded is in the map; what else the cache holds, it held before.
  pub load-IsCoherent : (l : Ledger S) (id : String) → IsCoherent l → IsCoherent (load S l id).1
  unfolding load
  load-IsCoherent l id v = record {
    at_id = λ j a e. elim (Option-cases (S.accounts.get l.accounts id)) [
      | inl missing ↦ ground (arith, v.at_id j a)
      | inr (b, found) ↦ ground (arith, peek-put S.cache l.cache id j b a, v.at_id j a)
    ];
  }

  -- Coherence rests on the accounts and the content of the cache alone.
  pub IsCoherent-same :
      {l k : Ledger S}
      → SameData l k
      → ((j : String) → cached S k j ≡ cached S l j)
      → IsCoherent l
      → IsCoherent k
  IsCoherent-same d c v = record { at_id = λ j a e. cc (d.accounts, v.at_id j a (sym (c j) ∙ e)) }

  -- With a coherent cache the answer is what the map holds; the data stay, and so does coherence.
  pub get_account_lem :
      (l : Ledger S) (id : String)
      → IsCoherent l
      → ((get_account S l id).0 ≡ stored S l id)
        × SameData l (get_account S l id).1
        × IsCoherent (get_account S l id).1
  unfolding get_account
  get_account_lem l id v =
      let r = read_cache_lem l id in
      let k : Ledger S = (read_cache S l id).1 in
      let w : IsCoherent k = IsCoherent-same r.1 r.2 v in
      elim (Option-cases (read_cache S l id).0) [
        | inl miss ↦
            rw (miss, get_account)
              (
                load_value k id ∙ ap (λ m. S.accounts.get m id) r.1.accounts,
                SameData-trans r.1 (load-SameData k id),
                load-IsCoherent k id w,
              )
        | inr (a, hit) ↦ rw (hit, get_account) (sym (v.at_id id a (sym r.0 ∙ hit)), r.1, w)
      ]

  -- Each call counts as one hit or as one miss.
  get_account_counts :
      (l : Ledger S) (id : String)
      → let k = (get_account S l id).1 in
        ((cached S l id ≢ none)
          × (k.cache_hits ≡ bump l.cache_hits)
          × (k.cache_misses ≡ l.cache_misses))
        ⊎ ((cached S l id ≡ none)
            × (k.cache_hits ≡ l.cache_hits)
            × (k.cache_misses ≡ bump l.cache_misses))
  unfolding get_account read_cache load
  get_account_counts l id = ground (arith, S.cache.get_value l.cache id)
