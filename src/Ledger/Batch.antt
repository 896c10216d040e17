-- ===== src/Ledger/Batch.antt =====
-- Reading many accounts or moments at once, `get_accounts_batch` and `get_moments_batch` of
-- src/types.rs.
use hancoin.Prelude.{
  ◌≡◌, refl, sym, ap, subst, ◌∙◌, inl, inr, String, Bool, true, false, ◌||◌, ◌&&◌, List, [], ◌∷◌,
  Option, none, some, arith, contains, contains-append, eq_iff, if◌then◌else◌, Option-cases,
}
use hancoin.Account.{Account}
use hancoin.Ledger.{
  Stores, Ledger, Moment, stored, cached, lookup, read_cache, load, Scan, scan_one, scan_cache,
  load_misses, get_accounts_batch, collect_moments, get_moments_batch,
}
use hancoin.Ledger.Cache.{
  IsCoherent, SameData, SameData-trans, read_cache_lem, IsCoherent-same, load-SameData, load_value,
  load-IsCoherent,
}

-- The first value that is there.
abbrev pub or_else {ℓ} : {A : Type ℓ} → Option A → Option A → Option A
or_else (some a) o = some a
or_else none o = o

abbrev pub is_none {ℓ} : {A : Type ℓ} → Option A → Bool
is_none none = true
is_none (some a) = false

module _ (S : Stores) where
  -- What the first loop has found and missed.
  pub record Scanned (s t : Scan S) (ids : List String) : Type 0 where
    pub data_same : SameData S s.ledger t.ledger
    pub cache_same : (k : String) → cached S t.ledger k ≡ cached S s.ledger k
    pub found :
        (k : String)
        → lookup t.result k ≡ (
            if contains ids k
            then or_else (cached S s.ledger k) (lookup s.result k)
            else lookup s.result k)
    pub missed :
        (k : String)
        → contains t.cache_miss k
          ≡ (contains s.cache_miss k || (contains ids k && is_none (cached S s.ledger k)))

  ledger-scan_one :
      (s : Scan S) (id : String) → (scan_one S s id).ledger ≡ (read_cache S s.ledger id).1
  unfolding scan_one
  ledger-scan_one s id = ground arith

  scan_one_lem : (s : Scan S) (id : String) → Scanned s (scan_one S s id) (id ∷ [])
  unfolding scan_one
  scan_one_lem s id =
      let r = read_cache_lem S s.ledger id in
      record {
        data_same = subst (SameData S s.ledger) (sym (ledger-scan_one s id)) r.1;
        cache_same = λ k. ground (arith, r.2 k);
        found = λ k. ground (arith, r.0, eq_iff id k);
        missed = λ k. ground (arith, r.0, eq_iff id k, contains-append s.cache_miss (id ∷ []) k);
      }

  Scanned-nil : (s : Scan S) → Scanned s s []
  Scanned-nil s = record {
    data_same = record { accounts = refl; issued = refl; transactions = refl; moments = refl };
    cache_same = λ k. refl;
    found = λ k. refl;
    missed = λ k. ground arith;
  }

  -- Two scans, one after the other.
  Scanned-cons :
      (s t u : Scan S) (id : String) (ids : List String)
      → Scanned s t (id ∷ [])
      → Scanned t u ids
      → Scanned s u (id ∷ ids)
  Scanned-cons s t u id ids a b = record {
    data_same = SameData-trans S a.data_same b.data_same;
    cache_same = λ k. b.cache_same k ∙ a.cache_same k;
    found = λ k. ground (arith, a.found k, b.found k, a.cache_same k);
    missed = λ k. ground (arith, a.missed k, b.missed k, a.cache_same k);
  }

  pub scan_cache_lem : (s : Scan S) (ids : List String) → Scanned s (scan_cache S s ids) ids
  unfolding scan_cache
  scan_cache_lem s [] = Scanned-nil s
  scan_cache_lem s (id ∷ ids) =
      Scanned-cons s (scan_one S s id) _ id ids (scan_one_lem s id)
        (scan_cache_lem (scan_one S s id) ids)

  -- The second loop adds what the map holds of the missed accounts.
  load_misses_lem :
      (result : List (String × Account)) (l : Ledger S) (ids : List String)
      → IsCoherent S l
      → SameData S l (load_misses S result l ids).1
        × IsCoherent S (load_misses S result l ids).1
        × ((k : String)
            → lookup (load_misses S result l ids).0 k ≡ (
                if contains ids k
                then or_else (stored S l k) (lookup result k)
                else lookup result k))
  unfolding load_misses
  load_misses_lem result l [] v =
      (record { accounts = refl; issued = refl; transactions = refl; moments = refl }, v, λ k. refl)
  load_misses_lem result l (id ∷ ids) v =
      let d = load-SameData S l id in
      let rest =
        load_misses_lem
          (elim (load S l id).0 [ some account ↦ (id, account) ∷ result | none ↦ result ])
          (load S l id).1 ids (load-IsCoherent S l id v) in
      (
        SameData-trans S d rest.0,
        rest.1,
        (λ k. ground (
          arith,
          rest.2 k,
          load_value S l id,
          ap (λ m. S.accounts.get m k) d.accounts,
          eq_iff id k,
        )),
      )

  -- With a coherent cache, a batch finds each account that is asked for exactly as the map holds it,
  -- and nothing else; the data stay, and so does coherence.
  pub get_accounts_batch_lem :
      (l : Ledger S) (ids : List String)
      → IsCoherent S l
      → ((k : String)
          → lookup (get_accounts_batch S l ids).0 k
            ≡ (if contains ids k then stored S l k else none))
        × SameData S l (get_accounts_batch S l ids).1
        × IsCoherent S (get_accounts_batch S l ids).1
  unfolding get_accounts_batch
  get_accounts_batch_lem l ids v =
      let s : Scan S = record { result = []; cache_miss = []; ledger = l } in
      let t : Scan S = scan_cache S s ids in
      let a = scan_cache_lem s ids in
      let b =
        load_misses_lem t.result t.ledger t.cache_miss
          (IsCoherent-same S a.data_same a.cache_same v) in
      (
        (λ k. elim (Option-cases (cached S l k)) [
          | inl miss ↦ ground (
            arith,
            a.found k,
            a.missed k,
            b.2 k,
            ap (λ m. S.accounts.get m k) a.data_same.accounts,
          )
          | inr (account, hit) ↦ ground (arith, a.found k, a.missed k, b.2 k, v.at_id k account hit)
        ]),
        SameData-trans S a.data_same b.0,
        b.1,
      )

  collect_moments_lem :
      (result : List (String × Moment)) (l : Ledger S) (ids : List String) (k : String)
      → lookup (collect_moments S result l ids) k ≡ (
          if contains ids k
          then or_else (S.moments.get l.moments k) (lookup result k)
          else lookup result k)
  unfolding collect_moments
  collect_moments_lem result l [] k = refl
  collect_moments_lem result l (id ∷ ids) k = ground (
    arith,
    collect_moments_lem
        (elim (S.moments.get l.moments id) [ some moment ↦ (id, moment) ∷ result | none ↦ result ])
        l ids k,
    eq_iff id k,
  )

  -- A batch of moments finds each that is asked for as the map holds it, and nothing else.
  pub get_moments_batch_lem :
      (l : Ledger S) (ids : List String) (k : String)
      → lookup (get_moments_batch S l ids) k
        ≡ (if contains ids k then S.moments.get l.moments k else none)
  unfolding get_moments_batch
  get_moments_batch_lem l ids k = ground (arith, collect_moments_lem [] l ids k)
