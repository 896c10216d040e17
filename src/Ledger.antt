-- ===== src/Ledger.antt =====
-- The ledger of src/types.rs: the maps that the node keeps, with a cache of accounts before one of
-- them. The maps and the cache come from other crates (`Stores`).
pub mod Cache
pub mod Batch
pub mod Balances
pub mod Reads
use hancoin.Prelude.{
  ℕ, ◌+◌, ◌%◌, ◌≡◌, String, List, [], ◌∷◌, ◌++◌, Option, none, some, ◌==◌, if◌then◌else◌,
}
use hancoin.Machine.{u64_mod}
use hancoin.Stores.{DashMap, LruCache}
use hancoin.Account.{Account}

pub data TxStatus : Type 0 where
  pending completed : TxStatus
  failed : String → TxStatus

pub record Tx : Type 0 where
  pub id : String
  pub from : String
  pub to : String
  pub amount : ℕ
  pub timestamp : ℕ
  pub fee : ℕ
  pub memo : Option String
  pub status : TxStatus

pub record Comment : Type 0 where
  pub id : String
  pub author : String
  pub content : String
  pub timestamp : ℕ

pub record Moment : Type 0 where
  pub id : String
  pub author : String
  pub content : String
  pub timestamp : ℕ
  pub likes : ℕ
  pub reposts : ℕ
  pub comments : List Comment

-- The containers of a ledger.
pub record Stores : Type 1 where
  pub accounts : DashMap Account
  pub transactions : DashMap Tx
  pub moments : DashMap Moment
  pub cache : LruCache Account

pub record Ledger (S : Stores) : Type 0 where
  pub accounts : S.accounts.Map
  pub issued : ℕ
  pub transactions : S.transactions.Map
  pub moments : S.moments.Map
  pub cache : S.cache.Cache
  pub cache_hits : ℕ
  pub cache_misses : ℕ

-- `fetch_add(1)` of an `AtomicU64` wraps round.
abbrev pub bump : ℕ → ℕ
bump n = (n + 1) % u64_mod

-- A `HashMap` that a function builds, as a list with the newest entry first.
module _ {ℓ} {V : Type ℓ} where
  abbrev pub lookup : List (String × V) → String → Option V
  lookup [] k = none
  lookup ((j, v) ∷ m) k = if j == k then some v else lookup m k

module _ (S : Stores) where
  unfoldable pub new : Ledger S
  new = record {
    accounts = S.accounts.empty;
    issued = 0;
    transactions = S.transactions.empty;
    moments = S.moments.empty;
    cache = S.cache.empty;
    cache_hits = 0;
    cache_misses = 0;
  }

  -- The account as it is stored.
  abbrev pub stored : Ledger S → String → Option Account
  stored l id = S.accounts.get l.accounts id

  abbrev pub cached : Ledger S → String → Option Account
  cached l id = S.cache.peek l.cache id

  -- A read of the cache moves the entry in it, and counts.
  unfoldable pub read_cache : Ledger S → String → Option Account × Ledger S
  read_cache l id =
      let (found, cache) = S.cache.get l.cache id in
      elim found [
        | some account ↦ (some account, record l { cache = cache; cache_hits = bump l.cache_hits })
        | none ↦ (none, record l { cache = cache; cache_misses = bump l.cache_misses })
      ]

  -- After a miss the account is read from the map, and put into the cache if it is there.
  unfoldable pub load : Ledger S → String → Option Account × Ledger S
  load l id = elim (S.accounts.get l.accounts id) [
    | some account ↦ (some account, record l { cache = S.cache.put l.cache id account })
    | none ↦ (none, l)
  ]

  unfoldable pub get_account : Ledger S → String → Option Account × Ledger S
  get_account l id = elim (read_cache l id).0 [
    | some account ↦ (some account, (read_cache l id).1)
    | none ↦ load (read_cache l id).1 id
  ]

  -- The first loop of `get_accounts_batch`, over the cache: the answers, and what was missed.
  pub record Scan : Type 0 where
    pub result : List (String × Account)
    pub cache_miss : List String
    pub ledger : Ledger S

  -- One round of that loop.
  unfoldable pub scan_one : Scan → String → Scan
  scan_one s id = elim (read_cache s.ledger id).0 [
    | some account ↦ record s {
      result = (id, account) ∷ s.result;
      ledger = (read_cache s.ledger id).1;
    }
    | none ↦ record s { cache_miss = s.cache_miss ++ id ∷ []; ledger = (read_cache s.ledger id).1 }
  ]

  unfoldable pub scan_cache : Scan → List String → Scan
  scan_cache s [] = s
  scan_cache s (id ∷ ids) = scan_cache (scan_one s id) ids

  -- The second loop, over the map.
  unfoldable pub load_misses :
      List (String × Account) → Ledger S → List String → List (String × Account) × Ledger S
  load_misses result l [] = (result, l)
  load_misses result l (id ∷ ids) =
      load_misses (elim (load l id).0 [ some account ↦ (id, account) ∷ result | none ↦ result ])
        (load l id).1 ids

  unfoldable pub get_accounts_batch : Ledger S → List String → List (String × Account) × Ledger S
  get_accounts_batch l account_ids =
      let s : Scan = scan_cache (record { result = []; cache_miss = []; ledger = l }) account_ids in
      load_misses s.result s.ledger s.cache_miss

  unfoldable pub collect_moments :
      List (String × Moment) → Ledger S → List String → List (String × Moment)
  collect_moments result l [] = result
  collect_moments result l (id ∷ ids) =
      collect_moments
        (elim (S.moments.get l.moments id) [ some moment ↦ (id, moment) ∷ result | none ↦ result ])
        l ids

  unfoldable pub get_moments_batch : Ledger S → List String → List (String × Moment)
  get_moments_batch l moment_ids = collect_moments [] l moment_ids
