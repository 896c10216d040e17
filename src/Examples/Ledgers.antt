-- ===== src/Examples/Ledgers.antt =====
-- Ledgers of src/types.rs and managers of src/coinjoin.rs at concrete inputs.
use hancoin.Prelude.{◌≡◌, refl, List, [], ◌∷◌, map, some, arith}
use hancoin.Account.{Account, active}
use hancoin.Ledger.{
  Ledger, new, cached, read_cache, load, get_account, scan_one, scan_cache, load_misses,
  get_accounts_batch, get_moments_batch,
}
use hancoin.Ledger.Cache.{IsCoherent, SameData}
use hancoin.Ledger.Reads.{
  Read, account, accounts, moments, AllAlike, none_left, next, same_account, same_accounts,
  same_moments, read, read_all, read_maps, read_all-read_maps,
}
use hancoin.Examples.Instances.{lists}

abbrev alice : Account
alice = record {
  balance = 7;
  last_claim = 0;
  transactions = [];
  created_at = 0;
  last_active = 0;
  nonce = 0;
  status = active;
}

-- Alice is stored; nothing is cached.
abbrev books : Ledger lists
books = record (new lists) { accounts = ("alice", alice) ∷ []; cache = [] }

books-IsCoherent : IsCoherent lists books
books-IsCoherent = record { at_id = λ id a e. cc }

-- Alice is read, then both are, then a moment that is not there.
abbrev asked : List Read
asked = account "alice" ∷ accounts ("bob" ∷ "alice" ∷ []) ∷ moments ("m" ∷ []) ∷ []

-- The same reads, with the batch the other way round and Alice in it twice.
abbrev asked_otherwise : List Read
asked_otherwise =
    account "alice" ∷ accounts ("alice" ∷ "bob" ∷ "alice" ∷ []) ∷ moments ("m" ∷ "m" ∷ []) ∷ []

asked-AllAlike : AllAlike asked asked_otherwise
asked-AllAlike =
    next same_account
      (next (same_accounts (λ k. ground arith)) (next (same_moments (λ k. ground arith)) none_left))

read_all-read_maps_example :
    ((read_all lists books asked).0
      ≡ map (read_maps lists books.accounts books.moments) asked_otherwise)
    × SameData lists books (read_all lists books asked).1
    × IsCoherent lists (read_all lists books asked).1
read_all-read_maps_example = read_all-read_maps lists books asked-AllAlike books-IsCoherent

-- The reads leave Alice in the cache, after one miss of hers, one of Bob, and one hit.
asked_caches :
    let l = (read_all lists books asked).1 in
    (cached lists l "alice" ≡ some alice) × (l.cache_hits ≡ 1) × (l.cache_misses ≡ 2)
unfolding read_all read read_cache load get_account get_accounts_batch scan_cache scan_one
    load_misses get_moments_batch new
asked_caches = (refl, refl, refl)
