-- ===== src/Api/Faucet/Tasks/InTurn.antt =====
-- Claims as tasks that take all their turns one task after the other.
use hancoin.Prelude.{
  ℕ, ◌≡◌, refl, ap, ap₂, ◌∙◌, List, [], ◌∷◌, ◌++◌, map, All, replicate, nat_eq, false, arith,
}
use hancoin.Machine.{Profile}
use hancoin.Ledger.{Stores}
use hancoin.Api.{Outcome}
use hancoin.Api.Faucet.{FaucetReply}
use hancoin.Api.Faucet.Runs.{Asked, InOrder, untouched, draws, claims, claims-new}
use hancoin.Api.Faucet.Spec.{view}
use hancoin.Api.Faucet.Tasks.{Task, asking, done, System, turn, run, begin}
use hancoin.Api.Faucet.Tasks.Alone.{run-claim}

-- Five turns of each task, which is what the longest claim takes.
abbrev pub in_turn : List ℕ → List ℕ
in_turn [] = []
in_turn (n ∷ ns) = replicate 5 n ++ in_turn ns

abbrev Differs : ℕ → ℕ → Type 0
Differs n m = nat_eq n m ≡ false

-- No task stands in the list twice.
abbrev pub AreDifferent : List ℕ → Type 0
AreDifferent [] = Unit
AreDifferent (n ∷ ns) = All (Differs n) ns × AreDifferent ns

-- The tasks of claims that have got their answers.
abbrev pub answered : List Asked → List (Outcome FaucetReply) → List Task
answered (c ∷ cs) (o ∷ os) = done c.id o ∷ answered cs os
answered _ _ = []

abbrev pub starts : Asked → Task
starts c = asking c.id c.now c.created

Differs-sym : (n m : ℕ) → Differs n m → Differs m n
Differs-sym n m h = ground (arith, h)

All-Differs_sym : (n : ℕ) (ns : List ℕ) → All (Differs n) ns → All (λ m. Differs m n) ns
All-Differs_sym n [] h = tt
All-Differs_sym n (m ∷ ns) h = (Differs-sym n m h.0, All-Differs_sym n ns h.1)

module _ (S : Stores) (profile : Profile) (asked : ℕ → Asked) where
  run-append :
      (s : System S) (ns ms : List ℕ)
      → run S profile s (ns ++ ms) ≡ run S profile (run S profile s ns) ms
  unfolding run
  run-append s [] ms = refl
  run-append s (n ∷ ns) ms = run-append (turn S profile s n) ns ms

  -- Tasks that are not among those that moved still are to start.
  still_start :
      (s r : System S) (n : ℕ) (ns : List ℕ)
      → ((m : ℕ) → Differs n m → r.tasks m ≡ s.tasks m)
      → All (Differs n) ns
      → All (λ m. s.tasks m ≡ starts (asked m)) ns
      → All (λ m. r.tasks m ≡ starts (asked m)) ns
  still_start s r n [] others d h = tt
  still_start s r n (m ∷ ns) others d h = (others m d.0 ∙ h.0, still_start s r n ns others d.1 h.1)

  record IsServed (s : System S) (ns : List ℕ) (r : System S) : Type 0 where
    ledger : r.ledger ≡ (claims S profile s.ledger (map asked ns)).1
    answers : map r.tasks ns ≡ answered (map asked ns) (claims S profile s.ledger (map asked ns)).0
    others : (m : ℕ) → All (λ n. Differs n m) ns → r.tasks m ≡ s.tasks m

  run-in_turn :
      (s : System S) (ns : List ℕ)
      → AreDifferent ns
      → All (λ n. s.tasks n ≡ starts (asked n)) ns
      → IsServed s ns (run S profile s (in_turn ns))
  unfolding run claims
  run-in_turn s [] d h = record { ledger = refl; answers = refl; others = λ m e. refl }
  run-in_turn s (n ∷ ns) d h =
      let c = asked n in
      let a = run-claim S profile s n c.id c.now c.created h.0 in
      let t : System S = run S profile s (replicate 5 n) in
      let rest = run-in_turn t ns d.1 (still_start s t n ns a.2 d.0 h.1) in
      rw (run-append s (replicate 5 n) (in_turn ns)) (record {
        ledger = rest.ledger ∙ ap (λ l. (claims S profile l (map asked ns)).1) a.0;
        answers = ap₂ ◌∷◌ (rest.others n (All-Differs_sym n ns d.0) ∙ a.1) (
            rest.answers
            ∙ ap (λ l. answered (map asked ns) (claims S profile l (map asked ns)).0) a.0);
        others = λ m e. rest.others m e.1 ∙ a.2 m e.0;
      })

  all_start : (ns : List ℕ) → All (λ n. (begin S asked).tasks n ≡ starts (asked n)) ns
  all_start [] = tt
  all_start (n ∷ ns) = (refl, all_start ns)

  -- From a new ledger, any different tasks that take their turns one task after the other, five each,
  -- with clocks that do not go back, get the answers that the abstract faucet gives to their claims,
  -- and leave the balances, the times and the issued coins that it leaves.
  pub begin-in_turn :
      (ns : List ℕ)
      → AreDifferent ns
      → InOrder 0 (map asked ns)
      → let r = run S profile (begin S asked) (in_turn ns) in
        let d = draws untouched (map asked ns) in
        (map r.tasks ns ≡ answered (map asked ns) d.0) × (view S r.ledger ≡ d.1)
  begin-in_turn ns d o =
      let r = run-in_turn (begin S asked) ns d (all_start ns) in
      let c = claims-new S profile (map asked ns) o in
      (r.answers ∙ ap (answered (map asked ns)) c.0, ap (view S) r.ledger ∙ c.1)
