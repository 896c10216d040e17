-- ===== src/Ledger/Reads.antt =====
-- The reads of a ledger one after another, `get_account`, `get_accounts_batch` and
-- `get_moments_batch` of src/types.rs, next to a ledger that has no cache.
use mathlib.Core.Quot
use mathlib.Core.Quot.{Quot}
use hancoin.Prelude.{
  ◌≡◌, refl, ap, ap₂, ◌∙◌, String, List, [], ◌∷◌, map, Option, none, some, arith, contains, eq_iff,
  if◌then◌else◌,
}
use hancoin.Account.{Account}
use hancoin.Ledger.{
  Stores, Ledger, Moment, lookup, get_account, get_accounts_batch, get_moments_batch,
}
use hancoin.Ledger.Cache.{IsCoherent, SameData, SameData-trans, get_account_lem}
use hancoin.Ledger.Batch.{get_accounts_batch_lem, get_moments_batch_lem}

-- A `HashMap` has no order of its entries, and one entry a key.
module _ {ℓ} {V : Type ℓ} where
  abbrev SameEntries : List (String × V) → List (String × V) → Type ℓ
  SameEntries m n = (k : String) → lookup m k ≡ lookup n k

abbrev pub HashMap {ℓ} : Type ℓ → Type ℓ
HashMap V = Quot (SameEntries {V = V})

pub data Read : Type 0 where
  account : String → Read
  accounts : List String → Read
  moments : List String → Read

-- Two requests for the same keys, in any order and any number of times.
abbrev SameKeys : List String → List String → Type 0
SameKeys ids ids' = (k : String) → contains ids k ≡ contains ids' k

pub data Alike : Read → Read → Type 0 where
  same_account : {id : String} → Alike (account id) (account id)
  same_accounts :
      {ids ids' : List String} → SameKeys ids ids' → Alike (accounts ids) (accounts ids')
  same_moments : {ids ids' : List String} → SameKeys ids ids' → Alike (moments ids) (moments ids')

pub data AllAlike : List Read → List Read → Type 0 where
  none_left : AllAlike [] []
  next :
      {r r' : Read} {rs rs' : List Read}
      → Alike r r'
      → AllAlike rs rs'
      → AllAlike (r ∷ rs) (r' ∷ rs')

pub data Answer : Type 0 where
  one_account : Option Account → Answer
  many_accounts : HashMap Account → Answer
  many_moments : HashMap Moment → Answer

-- What a function holds of some keys, one after the other.
module _ {ℓ} {V : Type ℓ} (get : String → Option V) where
  abbrev pub entries : List String → List (String × V)
  entries [] = []
  entries (id ∷ ids) =
      let rest = entries ids in elim (get id) [ some v ↦ (id, v) ∷ rest | none ↦ rest ]

  lookup-entries :
      (ids : List String) (k : String)
      → lookup (entries ids) k ≡ (if contains ids k then get k else none)
  lookup-entries [] k = refl
  lookup-entries (id ∷ ids) k = ground (arith, lookup-entries ids k, eq_iff id k)

  SameEntries-entries :
      (ids ids' : List String) (m : List (String × V))
      → SameKeys ids ids'
      → ((k : String) → lookup m k ≡ (if contains ids k then get k else none))
      → SameEntries m (entries ids')
  SameEntries-entries ids ids' m same found k = rw (found k, same k, lookup-entries ids' k) refl

module _ (S : Stores) where
  -- A read of the ledger as it is.
  unfoldable pub read : Ledger S → Read → Answer × Ledger S
  read l (account id) = let (found, k) = get_account S l id in (one_account found, k)
  read l (accounts ids) =
      let (found, k) = get_accounts_batch S l ids in (many_accounts (Quot.mk found), k)
  read l (moments ids) = (many_moments (Quot.mk (get_moments_batch S l ids)), l)

  unfoldable pub read_all : Ledger S → List Read → List Answer × Ledger S
  read_all l [] = ([], l)
  read_all l (r ∷ rs) =
      let (answer, k) = read l r in let (answers, n) = read_all k rs in (answer ∷ answers, n)

  -- The same read of maps that nothing is in front of.
  unfoldable pub read_maps : S.accounts.Map → S.moments.Map → Read → Answer
  read_maps a m (account id) = one_account (S.accounts.get a id)
  read_maps a m (accounts ids) = many_accounts (Quot.mk (entries (λ id. S.accounts.get a id) ids))
  read_maps a m (moments ids) = many_moments (Quot.mk (entries (λ id. S.moments.get m id) ids))

  read_lem :
      (l : Ledger S) {r r' : Read}
      → Alike r r'
      → IsCoherent S l
      → ((read l r).0 ≡ read_maps l.accounts l.moments r')
        × SameData S l (read l r).1
        × IsCoherent S (read l r).1
  unfolding read read_maps
  read_lem l (same_account {id}) v =
      let a = get_account_lem S l id v in (ap one_account a.0, a.1, a.2)
  read_lem l (same_accounts {ids} {ids'} same) v =
      let a = get_accounts_batch_lem S l ids v in
      (ap many_accounts (Quot.sound (SameEntries-entries _ ids ids' _ same a.0)), a.1, a.2)
  read_lem l (same_moments {ids} {ids'} same) v = (
    ap many_moments
        (Quot.sound (SameEntries-entries _ ids ids' _ same (get_moments_batch_lem S l ids))),
    record { accounts = refl; issued = refl; transactions = refl; moments = refl },
    v,
  )

  -- From a ledger with a coherent cache, any reads one after another are answered as its maps with no
  -- cache before them answer the same reads, each batch with its identifiers in any order and any
  -- number of times, where an answer to a batch has no order of its entries; the data stay, and so
  -- does the coherence.
  pub read_all-read_maps :
      (l : Ledger S) {rs rs' : List Read}
      → AllAlike rs rs'
      → IsCoherent S l
      → ((read_all l rs).0 ≡ map (read_maps l.accounts l.moments) rs')
        × SameData S l (read_all l rs).1
        × IsCoherent S (read_all l rs).1
  unfolding read_all
  read_all-read_maps l none_left v =
      (refl, record { accounts = refl; issued = refl; transactions = refl; moments = refl }, v)
  read_all-read_maps l (next {r} {r'} {rs} {rs'} e es) v =
      let a = read_lem l e v in
      let b = read_all-read_maps (read l r).1 es a.2 in
      (
        ap₂ ◌∷◌ a.0 (b.0 ∙ ap₂ (λ x y. map (read_maps x y) rs') a.1.accounts a.1.moments),
        SameData-trans S a.1 b.1,
        b.2,
      )
