-- ===== src/Coinjoin/Session/Table/Taken.antt =====
-- Each row of the table of statuses of src/coinjoin.rs, with a session that takes it.
use hancoin.Prelude.{take, ◌≡◌, refl, ◌↔◌, subst, some, arith, List, [], ◌∷◌, true, false}
use hancoin.Machine.{Profile, Clock}
use hancoin.Coinjoin.Data.{
  CoinJoinStatus, waiting, collecting_inputs, collecting_outputs, collecting_signatures,
  broadcasting, completed, failed, timed_out, TxInput, TxOutput, TxSignature, CoinJoinSession,
}
use hancoin.Coinjoin.Session.{
  new, add_participant, add_input, add_output, add_signature, complete, fail, check_timeout,
}
use hancoin.Coinjoin.Session.Protocol
use hancoin.Coinjoin.Session.Protocol.{Call, step, run, run-Reach, step-Step}
use hancoin.Coinjoin.Session.Reach.{Step, Reach, fails, is_timed, here, next}
use hancoin.Coinjoin.Session.Table.{
  Follows, stay, everyone_in, all_inputs, all_outputs, all_signatures, sent, give_up, too_late,
  IsTaken, Step-Follows,
}

-- A session of one participant, with a time-out of a minute, whose calls all come at one time.
abbrev clock : Clock
clock = some 100

abbrev opening : CoinJoinSession
opening = new "id" 1 10 5 1 60 clock

abbrev coin : TxInput
coin = record { txid = "t"; vout = 0; amount = 5; script = "s"; pubkey = "p" }

abbrev payee : TxOutput
payee = record { address = "x"; amount = 5 }

abbrev sig : TxSignature
sig = record { input_index = 0; signature = "sig"; pubkey = "p" }

-- Everybody does their part.
abbrev whole : List (Call × Clock)
whole =
    (Protocol.joins "a", clock)
    ∷ (Protocol.gives_input coin, clock)
    ∷ (Protocol.gives_output payee, clock)
    ∷ (Protocol.signs sig, clock)
    ∷ (Protocol.completes "tx", clock)
    ∷ []

-- The calls that take the session as far as a status.
abbrev calls_to : CoinJoinStatus → List (Call × Clock)
calls_to collecting_inputs = take 1 whole
calls_to collecting_outputs = take 2 whole
calls_to collecting_signatures = take 3 whole
calls_to broadcasting = take 4 whole
calls_to completed = whole
calls_to failed = (Protocol.fails, clock) ∷ []
calls_to _ = []

record IsAt (a : CoinJoinStatus) : Type 0 where
  session : CoinJoinSession
  reached : Reach opening session
  status : session.status ≡ a
  last_active : session.last_active ≡ 100
  timeout : session.timeout ≡ 60

by_calls :
    (a : CoinJoinStatus)
    → (run opening (calls_to a)).status ≡ a
    → (run opening (calls_to a)).last_active ≡ 100
    → (run opening (calls_to a)).timeout ≡ 60
    → IsAt a
by_calls a e l m = record {
  session = run opening (calls_to a);
  reached = run-Reach opening (calls_to a);
  status = e;
  last_active = l;
  timeout = m;
}

-- Each status is reached.
reached-IsAt : (a : CoinJoinStatus) → IsAt a
unfolding new run step add_participant add_input add_output add_signature complete fail
    check_timeout
reached-IsAt timed_out = record {
  session = record opening { status = timed_out };
  reached = next here (is_timed Profile.release (some 161) true refl);
  status = refl;
  last_active = refl;
  timeout = refl;
}
reached-IsAt waiting = by_calls waiting refl refl refl
reached-IsAt collecting_inputs = by_calls collecting_inputs refl refl refl
reached-IsAt collecting_outputs = by_calls collecting_outputs refl refl refl
reached-IsAt collecting_signatures = by_calls collecting_signatures refl refl refl
reached-IsAt broadcasting = by_calls broadcasting refl refl refl
reached-IsAt completed = by_calls completed refl refl refl
reached-IsAt failed = by_calls failed refl refl refl

taken :
    (s t : CoinJoinSession) {a b : CoinJoinStatus}
    → Reach opening s
    → Step s t
    → s.status ≡ a
    → t.status ≡ b
    → IsTaken a b
taken s t r st e d = record {
  uuid = "id";
  least = 1;
  most = 10;
  target = 5;
  fee = 1;
  timeout = 60;
  now = clock;
  from = s;
  to = t;
  reached = r;
  step = st;
  before = e;
  after = d;
}

-- One more call takes the session from one status to another.
by_call :
    (a b : CoinJoinStatus) (c : Call × Clock)
    → (run opening (calls_to a)).status ≡ a
    → (step (run opening (calls_to a)) c).status ≡ b
    → IsTaken a b
by_call a b c e d =
    taken (run opening (calls_to a)) _ (run-Reach opening (calls_to a)) (step-Step _ c) e d

IsTaken-stay : (a : CoinJoinStatus) (i : IsAt a) → IsTaken a a
unfolding check_timeout
IsTaken-stay a i =
    taken i.session i.session i.reached
      (is_timed Profile.release clock false (ground (arith, i.last_active, i.timeout))) i.status
      i.status

IsTaken-failed : (a : CoinJoinStatus) (i : IsAt a) → IsTaken a failed
unfolding fail
IsTaken-failed a i =
    taken i.session (fail i.session clock) i.reached (fails clock refl) i.status refl

IsTaken-timed_out : (a : CoinJoinStatus) (i : IsAt a) → IsTaken a timed_out
unfolding check_timeout
IsTaken-timed_out a i =
    taken i.session (record i.session { status = timed_out }) i.reached
      (is_timed Profile.release (some 161) true (ground (arith, i.last_active, i.timeout))) i.status
      refl

Follows-IsTaken : {a b : CoinJoinStatus} → Follows a b → IsTaken a b
unfolding new run step add_participant add_input add_output add_signature complete fail
    check_timeout
Follows-IsTaken (stay {a}) = IsTaken-stay a (reached-IsAt a)
Follows-IsTaken everyone_in =
    by_call waiting collecting_inputs (Protocol.joins "a", clock) refl refl
Follows-IsTaken all_inputs =
    by_call collecting_inputs collecting_outputs (Protocol.gives_input coin, clock) refl refl
Follows-IsTaken all_outputs =
    by_call collecting_outputs collecting_signatures (Protocol.gives_output payee, clock) refl refl
Follows-IsTaken all_signatures =
    by_call collecting_signatures broadcasting (Protocol.signs sig, clock) refl refl
Follows-IsTaken sent = by_call broadcasting completed (Protocol.completes "tx", clock) refl refl
Follows-IsTaken (give_up {a}) = IsTaken-failed a (reached-IsAt a)
Follows-IsTaken (too_late {a}) = IsTaken-timed_out a (reached-IsAt a)

-- The table is exact: one status may come after another in it exactly if some session that is reached
-- from a new one takes a step from the one to the other.
pub Follows-iff-IsTaken : (a b : CoinJoinStatus) → Follows a b ↔ IsTaken a b
Follows-iff-IsTaken a b = (
  Follows-IsTaken,
  (λ i.
      subst (λ (x : CoinJoinStatus). Follows x b) i.before
        (subst (λ (y : CoinJoinStatus). Follows i.from.status y) i.after (Step-Follows i.step))),
)
