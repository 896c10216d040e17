-- ===== src/Coinjoin/Session/Reach.antt =====
-- The life of a session in src/coinjoin.rs: any method at any time, as a step relation, and what
-- holds of every session that is reached from a new one.
use hancoin.Prelude.{ℕ, ◌≤◌, ◌<◌, ◌≡◌, ◌⊎◌, String, Bool, some, arith, length, length-snoc}
use hancoin.Machine.{Profile, Clock}
use hancoin.Coinjoin.Data.{
  CoinJoinStatus, waiting, collecting_inputs, collecting_outputs, collecting_signatures,
  broadcasting, completed, failed, timed_out, TxInput, TxOutput, TxSignature, CoinJoinSession,
}
use hancoin.Coinjoin.Session.{
  new, add_participant, add_input, add_output, add_signature, complete, fail, check_timeout,
}
use hancoin.Coinjoin.Session.Invariant.{
  IsWellFormed, new-IsWellFormed, add_participant-IsWellFormed, add_input-IsWellFormed,
  add_output-IsWellFormed, add_signature-IsWellFormed, complete-IsWellFormed, fail-IsWellFormed,
  check_timeout-IsWellFormed,
}

-- One call of a method that changes the session, in either build profile.
pub data Step (s t : CoinJoinSession) : Type 0 where
  joins : (who : String) (now : Clock) → t ≡ (add_participant s who now).0 → Step s t
  gives_input : (input : TxInput) (now : Clock) → t ≡ (add_input s input now).0 → Step s t
  gives_output : (output : TxOutput) (now : Clock) → t ≡ (add_output s output now).0 → Step s t
  signs : (sig : TxSignature) (now : Clock) → t ≡ (add_signature s sig now).0 → Step s t
  completes : (txid : String) (now : Clock) → t ≡ (complete s txid now).0 → Step s t
  fails : (now : Clock) → t ≡ fail s now → Step s t
  is_timed :
      (profile : Profile) (now : Clock) (timed : Bool)
      → check_timeout profile s now ≡ some (t, timed)
      → Step s t

pub data Reach (s : CoinJoinSession) : CoinJoinSession → Type 0 where
  here : Reach s s
  next : {t u : CoinJoinSession} → Reach s t → Step t u → Reach s u

Step-IsWellFormed : {s t : CoinJoinSession} → Step s t → IsWellFormed s → IsWellFormed t
Step-IsWellFormed {s} (joins who now e) v = rw e (add_participant-IsWellFormed s who now v)
Step-IsWellFormed {s} (gives_input input now e) v = rw e (add_input-IsWellFormed s input now v)
Step-IsWellFormed {s} (gives_output output now e) v = rw e (add_output-IsWellFormed s output now v)
Step-IsWellFormed {s} (signs sig now e) v = rw e (add_signature-IsWellFormed s sig now v)
Step-IsWellFormed {s} (completes txid now e) v = rw e (complete-IsWellFormed s txid now v)
Step-IsWellFormed {s} (fails now e) v = rw e (fail-IsWellFormed s now v)
Step-IsWellFormed {s} {t} (is_timed profile now timed e) v =
    check_timeout-IsWellFormed profile s now (t, timed) e v

-- The methods keep the invariant, so it holds of whatever is reached from a session that has it.
Reach-IsWellFormed : {s t : CoinJoinSession} → Reach s t → IsWellFormed s → IsWellFormed t
Reach-IsWellFormed here v = v
Reach-IsWellFormed (next r st) v = Step-IsWellFormed st (Reach-IsWellFormed r v)

-- So every session that is reached from a new one is well formed.
pub new-Reach-IsWellFormed :
    (uuid : String) (least most target fee timeout : ℕ) (now : Clock) (t : CoinJoinSession)
    → Reach (new uuid least most target fee timeout now) t
    → IsWellFormed t
new-Reach-IsWellFormed uuid least most target fee timeout now t r =
    Reach-IsWellFormed r (new-IsWellFormed uuid least most target fee timeout now)

-- The phases in their order; the three last statuses are one phase.
abbrev pub phase : CoinJoinStatus → ℕ
phase waiting = 0
phase collecting_inputs = 1
phase collecting_outputs = 2
phase collecting_signatures = 3
phase broadcasting = 4
phase completed = 5
phase failed = 5
phase timed_out = 5

-- The parameters that a session is created with.
pub record SameParameters (s t : CoinJoinSession) : Type 0 where
  pub id : t.id ≡ s.id
  pub created_at : t.created_at ≡ s.created_at
  pub min_participants : t.min_participants ≡ s.min_participants
  pub max_participants : t.max_participants ≡ s.max_participants
  pub target_amount : t.target_amount ≡ s.target_amount
  pub fee_rate : t.fee_rate ≡ s.fee_rate
  pub timeout : t.timeout ≡ s.timeout

-- What a step may do: the parameters stay, the phase does not go back, nothing is taken out.
pub record IsForward (s t : CoinJoinSession) : Type 0 where
  pub parameters : SameParameters s t
  pub phases : phase s.status ≤ phase t.status
  pub participants : length s.participants ≤ length t.participants
  pub inputs : length s.inputs ≤ length t.inputs
  pub outputs : length s.outputs ≤ length t.outputs
  pub signatures : length s.signatures ≤ length t.signatures

Step-IsForward : {s t : CoinJoinSession} → Step s t → IsForward s t
unfolding add_participant add_input add_output add_signature complete fail check_timeout
Step-IsForward {s} (joins who now e) = rw e (ground arith)
Step-IsForward {s} (gives_input input now e) = rw e (ground (arith, length-snoc s.inputs input))
Step-IsForward {s} (gives_output output now e) = rw e (ground (arith, length-snoc s.outputs output))
Step-IsForward {s} (signs sig now e) = rw e (ground (arith, length-snoc s.signatures sig))
Step-IsForward {s} (completes txid now e) = rw e (ground arith)
Step-IsForward {s} (fails now e) = rw e (ground arith)
Step-IsForward {s} {t} (is_timed profile now timed e) = ground arith

IsForward-trans : {s t u : CoinJoinSession} → IsForward s t → IsForward t u → IsForward s u
IsForward-trans a b = ground arith

-- Whatever is called on a session, its parameters stay, its phase does not go back and nothing that
-- was collected is lost.
Reach-IsForward : {s t : CoinJoinSession} → Reach s t → IsForward s t
Reach-IsForward here = ground arith
Reach-IsForward (next r st) = IsForward-trans (Reach-IsForward r) (Step-IsForward st)

-- A session that has a transaction has the participants that it asked for, and as many inputs,
-- outputs and signatures as participants; its participants are never more than asked for.
pub reached_transaction :
    (uuid : String) (least most target fee timeout : ℕ) (now : Clock) (t : CoinJoinSession)
    (txid : String)
    → Reach (new uuid least most target fee timeout now) t
    → t.final_txid ≡ some txid
    → (0 < length t.participants)
      × (least ≤ length t.participants)
      × ((length t.participants ≤ 1) ⊎ (length t.participants ≡ least))
      × (length t.inputs ≡ length t.participants)
      × (length t.outputs ≡ length t.participants)
      × (length t.signatures ≡ length t.participants)
unfolding new
reached_transaction uuid least most target fee timeout now t txid r e =
    ground
      (arith, new-Reach-IsWellFormed uuid least most target fee timeout now t r, Reach-IsForward r)
