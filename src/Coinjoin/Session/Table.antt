-- ===== src/Coinjoin/Session/Table.antt =====
-- Which status a session of src/coinjoin.rs may have after which, the other data left out.
pub mod Taken
use hancoin.Prelude.{ℕ, ◌≡◌, String, arith}
use hancoin.Machine.{Clock}
use hancoin.Coinjoin.Data.{
  CoinJoinStatus, waiting, collecting_inputs, collecting_outputs, collecting_signatures,
  broadcasting, completed, failed, timed_out, CoinJoinSession,
}
use hancoin.Coinjoin.Session.{
  new, add_participant, add_input, add_output, add_signature, complete, fail, check_timeout,
}
use hancoin.Coinjoin.Session.Reach.{
  Step, Reach, joins, gives_input, gives_output, signs, completes, fails, is_timed,
}

-- The phases come one after the other; a session may fail or time out in any of them, and after the
-- last, and every method may leave the status as it is.
pub data Follows : CoinJoinStatus → CoinJoinStatus → Type 0 where
  stay : {a : CoinJoinStatus} → Follows a a
  everyone_in : Follows waiting collecting_inputs
  all_inputs : Follows collecting_inputs collecting_outputs
  all_outputs : Follows collecting_outputs collecting_signatures
  all_signatures : Follows collecting_signatures broadcasting
  sent : Follows broadcasting completed
  give_up : {a : CoinJoinStatus} → Follows a failed
  too_late : {a : CoinJoinStatus} → Follows a timed_out

ruleset rows = (stay, everyone_in, all_inputs, all_outputs, all_signatures, sent, give_up, too_late)

-- A step keeps to the table.
pub Step-Follows : {s t : CoinJoinSession} → Step s t → Follows s.status t.status
unfolding add_participant add_input add_output add_signature complete fail check_timeout
Step-Follows {s} (joins who now e) = rw e (grind (arith, rows))
Step-Follows {s} (gives_input input now e) = rw e (grind (arith, rows))
Step-Follows {s} (gives_output output now e) = rw e (grind (arith, rows))
Step-Follows {s} (signs sig now e) = rw e (grind (arith, rows))
Step-Follows {s} (completes txid now e) = rw e (grind (arith, rows))
Step-Follows {s} (fails now e) = rw e (grind (arith, rows))
Step-Follows {s} {t} (is_timed profile now timed e) = grind (arith, rows)

-- A session that is reached from a new one, and a step of it, with their statuses.
pub record IsTaken (a b : CoinJoinStatus) : Type 0 where
  pub uuid : String
  pub least : ℕ
  pub most : ℕ
  pub target : ℕ
  pub fee : ℕ
  pub timeout : ℕ
  pub now : Clock
  pub from : CoinJoinSession
  pub to : CoinJoinSession
  pub reached : Reach (new uuid least most target fee timeout now) from
  pub step : Step from to
  pub before : from.status ≡ a
  pub after : to.status ≡ b
