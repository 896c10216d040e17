-- ===== src/Coinjoin/Session/Protocol.antt =====
-- Runs of a session of src/coinjoin.rs in which everybody does their part, and what such a run
-- needs: clients call the methods of the session one after another.
pub mod Collect
pub mod Success
pub mod Accepted
use hancoin.Prelude.{ℕ, ◌≡◌, refl, ap, ◌∙◌, String, Bool, List, [], ◌∷◌, ◌++◌}
use hancoin.Machine.{Clock, secs}
use hancoin.Coinjoin.Data.{TxInput, TxOutput, TxSignature, CoinJoinSession}
use hancoin.Coinjoin.Session.Reach
use hancoin.Coinjoin.Session.Reach.{Reach, Step}
use hancoin.Coinjoin.Session.{add_participant, add_input, add_output, add_signature, complete, fail}

-- A call of a method that a client may make, with the clock's reading.
pub data Call : Type 0 where
  joins : String → Call
  gives_input : TxInput → Call
  gives_output : TxOutput → Call
  signs : TxSignature → Call
  completes : String → Call
  fails : Call

unfoldable pub step : CoinJoinSession → Call × Clock → CoinJoinSession
step s (joins who, now) = (add_participant s who now).0
step s (gives_input input, now) = (add_input s input now).0
step s (gives_output output, now) = (add_output s output now).0
step s (signs sig, now) = (add_signature s sig now).0
step s (completes txid, now) = (complete s txid now).0
step s (fails, now) = fail s now

unfoldable pub run : CoinJoinSession → List (Call × Clock) → CoinJoinSession
run s [] = s
run s (c ∷ cs) = run (step s c) cs

run-append :
    (s : CoinJoinSession) (cs ds : List (Call × Clock)) → run s (cs ++ ds) ≡ run (run s cs) ds
unfolding run
run-append s [] ds = refl
run-append s (c ∷ cs) ds = run-append (step s c) cs ds

-- The run goes on from the session that a call leaves.
pub after :
    (cs : List (Call × Clock)) {r q : CoinJoinSession × Bool} → r ≡ q → run r.0 cs ≡ run q.0 cs
after cs e = ap (λ (r : CoinJoinSession × Bool). run r.0 cs) e

-- The calls that hand in a list of items, each at its own time.
abbrev pub calls {ℓ} : {A : Type ℓ} → (A → Call) → List (A × Clock) → List (Call × Clock)
calls f [] = []
calls f ((a, now) ∷ rest) = (f a, now) ∷ calls f rest

abbrev pub items {ℓ} : {A : Type ℓ} → List (A × Clock) → List A
items [] = []
items ((a, now) ∷ rest) = a ∷ items rest

-- The time of the last call.
abbrev pub last_time {ℓ} : {A : Type ℓ} → ℕ → List (A × Clock) → ℕ
last_time t [] = t
last_time t ((a, now) ∷ rest) = last_time (secs now) rest

-- The run of two scripts goes on from where the first leads.
pub run_then :
    (s : CoinJoinSession) {t : CoinJoinSession} (cs ds : List (Call × Clock))
    → run s cs ≡ t
    → run s (cs ++ ds) ≡ run t ds
run_then s cs ds e = run-append s cs ds ∙ ap (λ (u : CoinJoinSession). run u ds) e

-- A client's call is one of the steps of a session.
pub step-Step : (s : CoinJoinSession) (c : Call × Clock) → Step s (step s c)
unfolding step
step-Step s (joins who, now) = Reach.joins who now refl
step-Step s (gives_input input, now) = Reach.gives_input input now refl
step-Step s (gives_output output, now) = Reach.gives_output output now refl
step-Step s (signs sig, now) = Reach.signs sig now refl
step-Step s (completes txid, now) = Reach.completes txid now refl
step-Step s (fails, now) = Reach.fails now refl

Reach-then : (s t : CoinJoinSession) (cs : List (Call × Clock)) → Reach s t → Reach s (run t cs)
unfolding run
Reach-then s t [] r = r
Reach-then s t (c ∷ cs) r = Reach-then s (step t c) cs (Reach.next r (step-Step t c))

pub run-Reach : (s : CoinJoinSession) (cs : List (Call × Clock)) → Reach s (run s cs)
run-Reach s cs = Reach-then s s cs Reach.here
