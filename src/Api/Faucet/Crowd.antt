-- ===== src/Api/Faucet/Crowd.antt =====
-- Any number of claims of `handle_faucet` of src/main.rs at once: all of them read the ledger before
-- one has written it.
use hancoin.Prelude.{
  ℕ, ◌+◌, ◌*◌, ◌≤◌, ◌<◌, ◌≡◌, refl, ◌∙◌, String, false, List, [], ◌∷◌, arith, length, All, contains,
  Distinct, ◌==◌, eq_iff,
}
use hancoin.Machine.{Profile}
use hancoin.Account.{faucet_daily_limit}
use hancoin.Supply.{han_total_supply}
use hancoin.Ledger.{Stores, Ledger}
use hancoin.Ledger.Balances.{sum_balances, balance_at-insert_ne}
use hancoin.Api.{reply}
use hancoin.Api.Faucet.{Grant, read_claim, write_claim}
use hancoin.Api.Faucet.Issue.{write_claim-IsCredited}
use hancoin.Api.Faucet.Money.{balance_of, IsBacked, SameMoney, balance_of-le, IsBacked-same}
use hancoin.Api.Faucet.Race.{read_claim_lem, issued-write_claim}
use hancoin.Api.Faucet.Runs.{Asked}

-- A claim with the grant that it is read with.
pub record Granted : Type 0 where
  pub asked : Asked
  pub grant : Grant

abbrev pub ids : List Granted → List String
ids [] = []
ids (c ∷ cs) = c.asked.id ∷ ids cs

module _ (S : Stores) where
  abbrev pub write_one : Ledger S → Granted → Ledger S
  write_one l c = (write_claim S l c.asked.id c.asked.now c.grant).1

  unfoldable pub writes : Ledger S → List Granted → Ledger S
  writes l [] = l
  writes l (c ∷ cs) = writes (write_one l c) cs

  -- A grant on the money of a ledger.
  abbrev Fits : Ledger S → Granted → Type 0
  Fits l c =
      (c.grant.account.balance ≡ balance_of S l c.asked.id)
      × (c.grant.new_issued ≡ l.issued + faucet_daily_limit)
      × (l.issued + faucet_daily_limit ≤ han_total_supply)

  All-Fits-same :
      (l m : Ledger S) (cs : List Granted) → SameMoney S l m → All (Fits m) cs → All (Fits l) cs
  All-Fits-same l m [] s h = tt
  All-Fits-same l m (c ∷ cs) s h = (
    (
      omega (arith, h.0.0, s.balances c.asked.id),
      omega (arith, h.0.1, s.issued),
      omega (arith, h.0.2, s.issued),
    ),
    All-Fits-same l m cs s h.1,
  )

  SameMoney-trans : (l m k : Ledger S) → SameMoney S l m → SameMoney S m k → SameMoney S l k
  SameMoney-trans l m k s t = record {
    issued = t.issued ∙ s.issued;
    balances = λ id. t.balances id ∙ s.balances id;
  }

  write_one-ne :
      (m : Ledger S) (c : Granted) (id : String)
      → (c.asked.id == id) ≡ false
      → balance_of S (write_one m c) id ≡ balance_of S m id
  unfolding write_claim
  write_one-ne m c id e = balance_at-insert_ne S.accounts m.accounts c.asked.id id _ e

  -- The writes of other claims do not touch an account.
  writes-ne :
      (m : Ledger S) (cs : List Granted) (id : String)
      → contains (ids cs) id ≡ false
      → balance_of S (writes m cs) id ≡ balance_of S m id
  unfolding writes
  writes-ne m [] id n = refl
  writes-ne m (c ∷ cs) id n =
      let one = write_one-ne m c id (ground arith) in
      writes-ne (write_one m c) cs id (ground arith) ∙ one

  -- What the accounts of claims hold in a ledger: as much more than in another.
  abbrev pub AllHold : ℕ → Ledger S → Ledger S → List Granted → Type 0
  AllHold n l k [] = Unit
  AllHold n l k (c ∷ cs) =
      (balance_of S k c.asked.id ≡ balance_of S l c.asked.id + n) × AllHold n l k cs

  AllHold-write_one :
      (l m : Ledger S) (c : Granted) (cs : List Granted)
      → contains (ids cs) c.asked.id ≡ false
      → AllHold 0 l m cs
      → AllHold 0 l (write_one m c) cs
  AllHold-write_one l m c [] n h = tt
  AllHold-write_one l m c (d ∷ cs) n h = (
    omega (
      arith,
      h.0,
      write_one-ne m c d.asked.id
          (ground (arith, eq_iff c.asked.id d.asked.id, eq_iff d.asked.id c.asked.id)),
    ),
    AllHold-write_one l m c cs (ground arith) h.1,
  )

  -- Different accounts that stand as they were read are all paid.
  writes-AllHold :
      (l m : Ledger S) (cs : List Granted)
      → IsBacked S l
      → All (Fits l) cs
      → Distinct (ids cs)
      → AllHold 0 l m cs
      → AllHold faucet_daily_limit l (writes m cs) cs
  unfolding writes
  writes-AllHold l m [] v f d h = tt
  writes-AllHold l m (c ∷ cs) v f d h =
      let k : Ledger S = write_one m c in
      let w =
        write_claim-IsCredited S m c.asked.id c.asked.now c.grant (omega (arith, f.0.0, h.0))
          (omega (arith, f.0.2, h.0, balance_of-le S l c.asked.id v)) in
      (
        omega (arith, writes-ne k cs c.asked.id d.0, w.1.balance, h.0),
        writes-AllHold l k cs v f.1 d.1 (AllHold-write_one l m c cs d.0 h.1),
      )

  AllHold-sum :
      (n : ℕ) (l k : Ledger S) (cs : List Granted)
      → AllHold n l k cs
      → sum_balances S.accounts k.accounts (ids cs)
        ≡ sum_balances S.accounts l.accounts (ids cs) + length cs * n
  unfolding sum_balances
  AllHold-sum n l k [] h = omega arith
  AllHold-sum n l k (c ∷ cs) h = grind (arith, AllHold-sum n l k cs h.1)

  writes-issued :
      (l m : Ledger S) (c : Granted) (cs : List Granted)
      → All (Fits l) (c ∷ cs)
      → (writes m (c ∷ cs)).issued ≡ l.issued + faucet_daily_limit
  unfolding writes
  writes-issued l m c [] f = issued-write_claim S m c.asked.id c.asked.now c.grant ∙ f.0.1
  writes-issued l m c (d ∷ cs) f = writes-issued l (write_one m c) d cs f.1

  SameMoney-AllHold : (l m : Ledger S) (cs : List Granted) → SameMoney S l m → AllHold 0 l m cs
  SameMoney-AllHold l m [] s = tt
  SameMoney-AllHold l m (c ∷ cs) s =
      (omega (arith, s.balances c.asked.id), SameMoney-AllHold l m cs s)

  module _ (profile : Profile) where
    abbrev pub read_one : Ledger S → Granted → Ledger S
    read_one l c = (read_claim S profile l c.asked.id c.asked.now c.asked.created).1

    unfoldable pub reads : Ledger S → List Granted → Ledger S
    reads l [] = l
    reads l (c ∷ cs) = reads (read_one l c) cs

    -- Each read, after those before it, grants the claim.
    abbrev pub AllGranted : Ledger S → List Granted → Type 0
    AllGranted l [] = Unit
    AllGranted l (c ∷ cs) =
        ((read_claim S profile l c.asked.id c.asked.now c.asked.created).0 ≡ reply c.grant)
        × AllGranted (read_one l c) cs

    -- The reads change no balance and no count, and each grants a claim on the money of the start.
    reads_lem :
        (l : Ledger S) (cs : List Granted)
        → IsBacked S l
        → AllGranted l cs
        → SameMoney S l (reads l cs) × All (Fits l) cs
    unfolding reads
    reads_lem l [] v g = (record { issued = refl; balances = λ id. refl }, tt)
    reads_lem l (c ∷ cs) v g =
        let m : Ledger S = read_one l c in
        let r = read_claim_lem S profile l c.asked.id c.asked.now c.asked.created c.grant v g.0 in
        let h = reads_lem m cs (IsBacked-same S l m r.0 v) g.1 in
        (SameMoney-trans l m _ r.0 h.0, ((r.1, r.2, r.3), All-Fits-same l m cs r.0 h.1))

    -- However many claims for different accounts are granted on reads that all come before the writes,
    -- every account is paid, so that together they hold the day's amount more for each of them; and one
    -- payment is counted. So a ledger whose coins these accounts hold in full is not backed any more,
    -- if they are two or more.
    pub crowd_loses_issue :
        (l : Ledger S) (c : Granted) (cs : List Granted)
        → IsBacked S l
        → Distinct (ids (c ∷ cs))
        → AllGranted l (c ∷ cs)
        → let k = writes (reads l (c ∷ cs)) (c ∷ cs) in
          (k.issued ≡ l.issued + faucet_daily_limit)
          × AllHold faucet_daily_limit l k (c ∷ cs)
          × (sum_balances S.accounts k.accounts (ids (c ∷ cs))
              ≡ sum_balances S.accounts l.accounts (ids (c ∷ cs))
                + length (c ∷ cs) * faucet_daily_limit)
          × (sum_balances S.accounts l.accounts (ids (c ∷ cs)) ≡ l.issued
              → 1 < length (c ∷ cs)
              → ¬ IsBacked S k)
    crowd_loses_issue l c cs v d g =
        let all = c ∷ cs in
        let m : Ledger S = reads l all in
        let k : Ledger S = writes m all in
        let r = reads_lem l all v g in
        let paid = writes-AllHold l m all v r.1 d (SameMoney-AllHold l m all r.0) in
        let count = writes-issued l m c cs r.1 in
        let sum = AllHold-sum faucet_daily_limit l k all paid in
        (count, paid, sum, (λ full many b. omega (arith, count, sum, b.backed (ids all) d)))
