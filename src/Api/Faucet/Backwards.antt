-- ===== src/Api/Faucet/Backwards.antt =====
-- Claims of `handle_faucet` of src/main.rs while the clock goes back: in a release build the difference
-- of the times wraps round, and passes for a long time.
use hancoin.Prelude.{
  ℕ, ◌+◌, ◌*◌, ◌≤◌, ◌<◌, ◌≡◌, refl, sym, ap, subst, ◌∙◌, String, List, [], ◌∷◌, map, none, some,
  arith, length, replicate,
}
use hancoin.Machine.{Profile, u64_mod, add_u64-some}
use hancoin.Account.{Account, faucet_cooldown, faucet_daily_limit}
use hancoin.Supply.{han_total_supply}
use hancoin.Ledger.{Stores, Ledger, stored}
use hancoin.Api.{reply, panic}
use hancoin.Api.Faucet.{
  FaucetReply, saturating_add, find_or_create, decide, read_claim, write_claim, claim,
}
use hancoin.Api.Faucet.Money.{balance_of, IsBacked}
use hancoin.Api.Faucet.Issue.{Claimed, claim_lem, claim-IsBacked}
use hancoin.Api.Faucet.Runs.{Asked, claims}
use hancoin.Api.Faucet.Daily.{IsAllPaid}

-- Each reading of the clock is before the last one.
abbrev pub IsFalling : ℕ → List ℕ → Type 0
IsFalling last [] = Unit
IsFalling last (t ∷ ts) = (t < last) × IsFalling t ts

-- One account asks at each of these times.
abbrev pub asks_at : String → ℕ → Asked
asks_at id now = record { id = id; now = now; created = none }

module _ (S : Stores) where
  decide-release :
      (issued now : ℕ) (a : Account)
      → now < a.last_claim
      → a.last_claim + faucet_cooldown ≤ u64_mod
      → issued + faucet_daily_limit ≤ han_total_supply
      → decide S Profile.release issued now a
        ≡ reply (record { account = a; new_issued = issued + faucet_daily_limit })
  unfolding decide
  decide-release issued now a h b r =
      ground (arith, add_u64-some Profile.release issued faucet_daily_limit)

  found-find_or_create :
      (l : Ledger S) (id : String) (a : Account)
      → stored S l id ≡ some a
      → (find_or_create S l id none).0 ≡ a
  unfolding find_or_create
  found-find_or_create l id a e = rw (e, find_or_create) refl

  -- Such a claim is paid.
  claim-release :
      (l : Ledger S) (id : String) (now : ℕ) (a : Account)
      → stored S l id ≡ some a
      → now < a.last_claim
      → a.last_claim + faucet_cooldown ≤ u64_mod
      → l.issued + faucet_daily_limit ≤ han_total_supply
      → (x : FaucetReply) × ((claim S Profile.release l id now none).0 ≡ reply x)
  unfolding claim read_claim write_claim
  claim-release l id now a e h b r =
      let account : (find_or_create S l id none).0 ≡ a = found-find_or_create l id a e in
      let decided =
        ap (decide S Profile.release l.issued now) account ∙ decide-release l.issued now a h b r in
      (
        record {
          balance = saturating_add a.balance faucet_daily_limit;
          issued = faucet_daily_limit;
        },
        rw (decided, claim) refl,
      )

  -- In a debug build it panics.
  claim-debug :
      (l : Ledger S) (id : String) (now : ℕ) (a : Account)
      → stored S l id ≡ some a
      → now < a.last_claim
      → claim S Profile.debug l id now none ≡ (panic, l)
  unfolding claim read_claim find_or_create decide
  claim-debug l id now a e h = ground (arith, e)

  claims-debug :
      (l : Ledger S) (id : String) (a : Account) (last : ℕ) (ts : List ℕ)
      → stored S l id ≡ some a
      → last ≤ a.last_claim
      → IsFalling last ts
      → claims S Profile.debug l (map (asks_at id) ts) ≡ (replicate (length ts) panic, l)
  unfolding claims
  claims-debug l id a last [] e h f = refl
  claims-debug l id a last (t ∷ ts) e h f =
      rw (claim-debug l id t a e (omega arith))
        (rw (claims-debug l id a t ts e (omega arith) f.1) refl)

  claims-release :
      (l : Ledger S) (id : String) (a : Account) (ts : List ℕ)
      → IsBacked S l
      → stored S l id ≡ some a
      → a.last_claim + faucet_cooldown ≤ u64_mod
      → IsFalling a.last_claim ts
      → l.issued + length ts * faucet_daily_limit ≤ han_total_supply
      → let c = claims S Profile.release l (map (asks_at id) ts) in
        IsAllPaid c.0 × (balance_of S c.1 id ≡ balance_of S l id + length ts * faucet_daily_limit)
  unfolding claims
  claims-release l id a [] v e b f r = (tt, omega arith)
  claims-release l id a (t ∷ ts) v e b f r =
      let x = claim-release l id t a e f.0 b (omega arith) in
      let k : Ledger S = (claim S Profile.release l id t none).1 in
      let p : Claimed S l id t (reply x.0) k =
        subst (λ o. Claimed S l id t o k) x.1 (claim_lem S Profile.release l id t none v) in
      let q = p.2.claimed in
      let rest =
        claims-release k id q.0 ts (claim-IsBacked S Profile.release l id t none v) q.1
          (omega (arith, q.2, f.0)) (subst (λ n. IsFalling n ts) (sym q.2) f.1)
          (omega (arith, p.2.issued)) in
      (rw x.1 rest.0, omega (arith, rest.1, p.2.credited.balance))

  -- An account that was paid before claims at readings of the clock each before the last one: a debug
  -- build panics each time and changes nothing; a release build pays each claim, as long as the supply
  -- has room for all of them, if the last payment was not in the last day that a u64 can tell.
  pub claims-IsFalling :
      (l : Ledger S) (id : String) (a : Account) (ts : List ℕ)
      → IsBacked S l
      → stored S l id ≡ some a
      → a.last_claim + faucet_cooldown ≤ u64_mod
      → IsFalling a.last_claim ts
      → l.issued + length ts * faucet_daily_limit ≤ han_total_supply
      → let cs = map (asks_at id) ts in
        let c = claims S Profile.release l cs in
        (claims S Profile.debug l cs ≡ (replicate (length ts) panic, l))
        × IsAllPaid c.0
        × (balance_of S c.1 id ≡ balance_of S l id + length ts * faucet_daily_limit)
  claims-IsFalling l id a ts v e b f r =
      let p = claims-release l id a ts v e b f r in
      (claims-debug l id a a.last_claim ts e (omega arith) f, p.0, p.1)
