-- ===== src/Api/Faucet/Tasks/Alone.antt =====
-- A claim whose turns come one after another, with none of another task between them, is the claim of
-- the sequential model.
use hancoin.Prelude.{
  ℕ, ◌≡◌, refl, ap, ◌∙◌, String, zero, suc, arith, nat_eq, false, Option-cases, inl, inr, replicate,
}
use hancoin.Machine.{Profile, Clock}
use hancoin.Account.{Account, default}
use hancoin.Ledger.{Stores, Ledger, stored}
use hancoin.Api.{Outcome, reply, reject, panic}
use hancoin.Api.Faucet.{FaucetReply, Grant, decide, find_or_create, read_claim, write_claim, claim}
use hancoin.Api.Faucet.Tasks.{
  Task, asking, missing, found, done, put_account, advance, System, turn, run,
}

module _ (S : Stores) (profile : Profile) where
  -- Accesses of one task in a row.
  advances : ℕ → Ledger S → Task → Ledger S × Task
  advances zero l t = (l, t)
  advances (suc k) l t = let r = advance S profile l t in advances k r.0 r.1

  record IsAlone (s : System S) (n : ℕ) (l : Ledger S) (t : Task) (r : System S) : Type 0 where
    ledger : r.ledger ≡ l
    task : r.tasks n ≡ t
    others : (m : ℕ) → nat_eq n m ≡ false → r.tasks m ≡ s.tasks m

  run-replicate :
      (k : ℕ) (s : System S) (n : ℕ)
      → IsAlone s n
          (advances k s.ledger (s.tasks n)).0
          (advances k s.ledger (s.tasks n)).1
          (run S profile s (replicate k n))
  unfolding advances run
  run-replicate zero s n = record { ledger = refl; task = refl; others = λ m e. refl }
  run-replicate (suc k) s n =
      let next : System S = turn S profile s n in
      let h = run-replicate k next n in
      let self : next.tasks n ≡ (advance S profile s.ledger (s.tasks n)).1 =
        unfold turn in ground arith in
      record {
        ledger = h.ledger ∙ unfold turn in ap (λ t. (advances k next.ledger t).0) self;
        task = h.task ∙ unfold turn in ap (λ t. (advances k next.ledger t).1) self;
        others = λ m e. h.others m e ∙ unfold turn in ground arith;
      }

  -- A task that has answered does nothing more.
  advances-done :
      (k : ℕ) (l : Ledger S) (id : String) (o : Outcome FaucetReply)
      → advances k l (done id o) ≡ (l, done id o)
  unfolding advances advance
  advances-done zero l id o = refl
  advances-done (suc k) l id o = advances-done k l id o

  -- How a claim goes on from its decision.
  abbrev after : Ledger S → String → ℕ → Outcome Grant → Ledger S × Task
  after l id now (reply g) = let w = write_claim S l id now g in (w.1, done id (reply w.0))
  after l id now (reject e) = (l, done id (reject e))
  after l id now panic = (l, done id panic)

  advances-found :
      (k : ℕ) (l : Ledger S) (id : String) (now : ℕ) (a : Account) (o : Outcome Grant)
      → decide S profile l.issued now a ≡ o
      → advances (suc (suc (suc k))) l (found id now a) ≡ after l id now o
  unfolding advances advance write_claim
  advances-found k l id now a (reply g) e = rw e (advances-done k _ id _)
  advances-found k l id now a (reject x) e = rw e (advances-done k l id _)
  advances-found k l id now a panic e = rw e (advances-done k l id _)

  after-claim :
      (l : Ledger S) (id : String) (now : ℕ) (created : Clock) (o : Outcome Grant)
      → decide S profile l.issued now (find_or_create S l id created).0 ≡ o
      → after (find_or_create S l id created).1 id now o
        ≡ ((claim S profile l id now created).1, done id (claim S profile l id now created).0)
  unfolding claim read_claim
  after-claim l id now created (reply g) e = rw (e, claim) refl
  after-claim l id now created (reject x) e = rw (e, claim) refl
  after-claim l id now created panic e = rw (e, claim) refl

  advances-suc :
      (k : ℕ) (l m : Ledger S) (t u : Task)
      → advance S profile l t ≡ (m, u)
      → advances (suc k) l t ≡ advances k m u
  unfolding advances
  advances-suc k l m t u e = ap (λ (r : Ledger S × Task). advances k r.0 r.1) e

  -- The account is found, or created and found in the next turn.
  advances-asking :
      (l : Ledger S) (id : String) (now : ℕ) (created : Clock)
      → advances 5 l (asking id now created) ≡ (
          let f = find_or_create S l id created in
          after f.1 id now (decide S profile l.issued now f.0))
  unfolding advance find_or_create
  advances-asking l id now created = elim (Option-cases (stored S l id)) [
    | inl e ↦
        let m : Ledger S = put_account S l id (default created) in
        advances-suc 4 l l _ (missing id now created) (rw (e, advance) refl)
        ∙ advances-suc 3 l m (missing id now created) (found id now (default created)) refl
        ∙ advances-found 0 m id now (default created) _ refl
        ∙ rw (e, find_or_create) refl
    | inr (a, e) ↦
        advances-suc 4 l l _ (found id now a) (rw (e, advance) refl)
        ∙ advances-found 1 l id now a _ refl
        ∙ rw (e, find_or_create) refl
  ]

  -- A claim that is not interrupted, from the read of its account to the write of the count, leaves
  -- the ledger and gives the answer of `claim`, and no other task moves.
  pub run-claim :
      (s : System S) (n : ℕ) (id : String) (now : ℕ) (created : Clock)
      → s.tasks n ≡ asking id now created
      → let r = run S profile s (replicate 5 n) in
        (r.ledger ≡ (claim S profile s.ledger id now created).1)
        × (r.tasks n ≡ done id (claim S profile s.ledger id now created).0)
        × ((m : ℕ) → nat_eq n m ≡ false → r.tasks m ≡ s.tasks m)
  run-claim s n id now created e =
      let h = run-replicate 5 s n in
      let c =
        ap (advances 5 s.ledger) e
        ∙ advances-asking s.ledger id now created
        ∙ after-claim s.ledger id now created _ refl in
      (
        h.ledger ∙ ap (λ (r : Ledger S × Task). r.0) c,
        h.task ∙ ap (λ (r : Ledger S × Task). r.1) c,
        h.others,
      )
