-- ===== src/Api/Faucet/Runs.antt =====
-- Many claims of `handle_faucet` of src/main.rs, one after another.
use hancoin.Prelude.{ℕ, ◌≤◌, ◌<◌, ◌≡◌, refl, ap, fun_ext, ◌∙◌, String, List, [], ◌∷◌, arith}
use hancoin.Machine.{Profile, u64_mod, Clock}
use hancoin.Ledger.{Stores, Ledger, new}
use hancoin.Api.{Outcome}
use hancoin.Api.Faucet.{FaucetReply, claim}
use hancoin.Api.Faucet.Money.{balance_of, IsBacked}
use hancoin.Api.Faucet.Issue.{claim-IsBacked, new-IsBacked}
use hancoin.Api.Faucet.Answer.{last_claim_of}
use hancoin.Api.Faucet.Spec.{Faucet, draw, view, claim-draw}

-- Who asks, when, and what the clock says if an account is created.
pub record Asked : Type 0 where
  pub id : String
  pub now : ℕ
  pub created : Clock

-- The clock does not go back, and fits in 64 bits.
abbrev pub InOrder : ℕ → List Asked → Type 0
InOrder t [] = Unit
InOrder t (c ∷ cs) = (t ≤ c.now) × (c.now < u64_mod) × InOrder c.now cs

-- Nobody was paid, and nothing is issued.
abbrev pub untouched : Faucet
untouched = record { balance = λ id. 0; last_claim = λ id. 0; issued = 0 }

unfoldable pub draws : Faucet → List Asked → List (Outcome FaucetReply) × Faucet
draws f [] = ([], f)
draws f (c ∷ cs) = let r = draw f c.id c.now in let rest = draws r.1 cs in (r.0 ∷ rest.0, rest.1)

module _ (S : Stores) (profile : Profile) where
  unfoldable pub claims : Ledger S → List Asked → List (Outcome FaucetReply) × Ledger S
  claims l [] = ([], l)
  claims l (c ∷ cs) =
      let r = claim S profile l c.id c.now c.created in
      let rest = claims r.1 cs in (r.0 ∷ rest.0, rest.1)

  pub draw-last :
      (f : Faucet) (id : String) (now : ℕ)
      → ((j : String) → f.last_claim j ≤ now)
      → (j : String) → (draw f id now).1.last_claim j ≤ now
  draw-last f id now h j = ground (arith, h j)

  claims-draws :
      (l : Ledger S) (t : ℕ) (cs : List Asked)
      → IsBacked S l
      → ((j : String) → last_claim_of S l j ≤ t)
      → InOrder t cs
      → ((claims l cs).0 ≡ (draws (view S l) cs).0)
        × (view S (claims l cs).1 ≡ (draws (view S l) cs).1)
  unfolding claims draws
  claims-draws l t [] v h o = (refl, refl)
  claims-draws l t (c ∷ cs) v h o =
      let k : Ledger S = (claim S profile l c.id c.now c.created).1 in
      let one = claim-draw S profile l c.id c.now c.created v (omega (arith, h c.id)) o.1 in
      let rest =
        claims-draws k c.now cs (claim-IsBacked S profile l c.id c.now c.created v)
          (λ j. omega (
            arith,
            ap (λ (f : Faucet). f.last_claim j) one.1,
            draw-last (view S l) c.id c.now (λ i. omega (arith, h i)) j,
          ))
          o.2 in
      (
        (λ i. one.0 i ∷ (rest.0 ∙ ap (λ f. (draws f cs).0) one.1) i),
        rest.1 ∙ ap (λ f. (draws f cs).1) one.1,
      )

  no_balance : (j : String) → balance_of S (new S) j ≡ 0
  unfolding new
  no_balance j = ground (arith, S.accounts.get_empty j)

  pub no_claim : (j : String) → last_claim_of S (new S) j ≡ 0
  unfolding new
  no_claim j = ground (arith, S.accounts.get_empty j)

  view-new : view S (new S) ≡ untouched
  unfolding new
  view-new =
      λ i. record { balance = fun_ext no_balance i; last_claim = fun_ext no_claim i; issued = 0 }

  -- From a new ledger, with a clock that does not go back, any claims get the answers that `draw`
  -- gives, one after another, and leave the balances, the times and the issued coins that it leaves.
  pub claims-new :
      (cs : List Asked)
      → InOrder 0 cs
      → ((claims (new S) cs).0 ≡ (draws untouched cs).0)
        × (view S (claims (new S) cs).1 ≡ (draws untouched cs).1)
  claims-new cs o =
      let r = claims-draws (new S) 0 cs (new-IsBacked S) (λ j. omega (arith, no_claim j)) o in
      (r.0 ∙ ap (λ f. (draws f cs).0) view-new, r.1 ∙ ap (λ f. (draws f cs).1) view-new)
