-- ===== src/Api/Faucet/Tasks/Paid.antt =====
-- What each access of a claim of src/main.rs does to the payments, whatever the other tasks did.
use hancoin.Prelude.{
  ℕ, ◌*◌, ◌≤◌, ◌<◌, ◌≡◌, refl, String, List, ◌∷◌, suc, arith, length, eq_iff, Option-cases, inl,
  inr,
}
use hancoin.Machine.{Profile}
use hancoin.Account.{Account, default, faucet_daily_limit}
use hancoin.Supply.{han_total_supply}
use hancoin.Ledger.{Stores, Ledger, stored}
use hancoin.Api.{Outcome, reply, reject, panic}
use hancoin.Api.Faucet.{Grant, decide}
use hancoin.Api.Faucet.Issue.{decide_lem}
use hancoin.Api.Faucet.Money.{balance_of}
use hancoin.Api.Faucet.Tasks.{
  Task, asking, missing, found, granted, written, done, credit, put_account, decided, advance,
  log_paid,
}
use hancoin.Api.Faucet.Tasks.Counts.{count}

-- What the payments so far allow an account.
abbrev pub allowed : String → List String → ℕ
allowed id log = count id log * faucet_daily_limit

-- What the local variables of a task say of the payments so far.
abbrev pub Fits : List String → Task → Type 0
Fits log (asking id now created) = Unit
Fits log (missing id now created) = Unit
Fits log (found id now a) = a.balance ≤ allowed id log
Fits log (granted id now g) =
    (g.account.balance ≤ allowed id log)
    × (g.new_issued ≤ han_total_supply)
    × (g.new_issued ≤ suc (length log) * faucet_daily_limit)
Fits log (written id new_issued answer) =
    (0 < count id log)
    × (answer.balance ≤ allowed id log)
    × (new_issued ≤ han_total_supply)
    × (new_issued ≤ length log * faucet_daily_limit)
Fits log (done id (reply answer)) = (0 < count id log) × (answer.balance ≤ allowed id log)
Fits log (done id (reject e)) = Unit
Fits log (done id panic) = Unit

Fits-cons : (c : String) (log : List String) (t : Task) → Fits log t → Fits (c ∷ log) t
Fits-cons c log (asking id now created) h = tt
Fits-cons c log (missing id now created) h = tt
Fits-cons c log (found id now a) h = ground arith
Fits-cons c log (granted id now g) h = ground arith
Fits-cons c log (written id new_issued answer) h = ground arith
Fits-cons c log (done id (reply answer)) h = ground arith
Fits-cons c log (done id (reject e)) h = tt
Fits-cons c log (done id panic) h = tt

pub Fits-log_paid : (t : Task) (log : List String) (u : Task) → Fits log u → Fits (log_paid t log) u
Fits-log_paid (granted id now g) log u h = Fits-cons id log u h
Fits-log_paid (asking id now created) log u h = h
Fits-log_paid (missing id now created) log u h = h
Fits-log_paid (found id now a) log u h = h
Fits-log_paid (written id new_issued answer) log u h = h
Fits-log_paid (done id answer) log u h = h

-- What a task has answered is true of the payments.
abbrev pub IsHonest : List String → Task → Type 0
IsHonest log (done id (reply a)) = (0 < count id log) × (a.balance ≤ allowed id log)
IsHonest log _ = Unit

pub Fits-IsHonest : (log : List String) (t : Task) → Fits log t → IsHonest log t
Fits-IsHonest log (asking id now created) h = tt
Fits-IsHonest log (missing id now created) h = tt
Fits-IsHonest log (found id now a) h = tt
Fits-IsHonest log (granted id now g) h = tt
Fits-IsHonest log (written id new_issued answer) h = tt
Fits-IsHonest log (done id (reply a)) h = h
Fits-IsHonest log (done id (reject e)) h = tt
Fits-IsHonest log (done id panic) h = tt

module _ (S : Stores) where
  -- The count of issued coins is within the supply and the payments, and so is each balance.
  pub record IsPaidFor (l : Ledger S) (log : List String) : Type 0 where
    pub within : l.issued ≤ han_total_supply
    pub issued : l.issued ≤ length log * faucet_daily_limit
    pub balances : (id : String) → balance_of S l id ≤ allowed id log

  put_account-IsPaidFor :
      (l : Ledger S) (log next : List String) (id : String) (a : Account)
      → IsPaidFor l log
      → a.balance ≤ allowed id next
      → length log ≤ length next
      → ((j : String) → count j log ≤ count j next)
      → IsPaidFor (put_account S l id a) next
  put_account-IsPaidFor l log next id a h b n c = record {
    within = h.within;
    issued = omega (arith, h.issued);
    balances = λ j.
        ground (arith, h.balances j, c j, S.accounts.get_insert l.accounts id j a, eq_iff id j);
  }

  module _ (profile : Profile) where
    decided-Fits :
        (log : List String) (id : String) (now issued : ℕ) (a : Account) (o : Outcome Grant)
        → issued ≤ han_total_supply
        → issued ≤ length log * faucet_daily_limit
        → a.balance ≤ allowed id log
        → decide S profile issued now a ≡ o
        → Fits log (decided id now o)
    decided-Fits log id now issued a (reply g) w i b e =
        ground (arith, decide_lem S profile issued now a g w e)
    decided-Fits log id now issued a (reject x) w i b e = tt
    decided-Fits log id now issued a panic w i b e = tt

    pub advance-IsPaidFor :
        (l : Ledger S) (log : List String) (t : Task)
        → IsPaidFor l log
        → Fits log t
        → IsPaidFor (advance S profile l t).0 (log_paid t log)
          × Fits (log_paid t log) (advance S profile l t).1
    unfolding advance default
    advance-IsPaidFor l log (asking id now created) h f = elim (Option-cases (stored S l id)) [
      | inl e ↦ rw (e, advance) (h, tt)
      | inr (a, e) ↦ rw (e, advance) (h, ground (arith, h.balances id))
    ]
    advance-IsPaidFor l log (missing id now created) h f = (
      put_account-IsPaidFor l log log id (default created) h (ground arith) (omega arith)
          (λ j. omega arith),
      ground arith,
    )
    advance-IsPaidFor l log (found id now a) h f =
        (h, decided-Fits log id now l.issued a _ h.within h.issued f refl)
    advance-IsPaidFor l log (granted id now g) h f = (
      put_account-IsPaidFor l log (id ∷ log) id (credit now g) h (ground (arith, eq_iff id id))
          (omega arith) (λ j. ground arith),
      ground (arith, eq_iff id id),
    )
    advance-IsPaidFor l log (written id new_issued answer) h f =
        (record { within = f.2; issued = f.3; balances = h.balances }, (f.0, f.1))
    advance-IsPaidFor l log (done id answer) h f = (h, f)
