-- ===== src/Coinjoin/Session.antt =====
-- The methods of `CoinJoinSession` in src/coinjoin.rs. A method that changes the session returns
-- the new one with its result; `now` is the reading of the clock that the method makes.
pub mod Invariant
pub mod Reach
pub mod Protocol
pub mod Faults
pub mod Table
use hancoin.Prelude.{
  ℕ, String, Bool, true, false, List, [], ◌∷◌, ◌++◌, Option, none, some, not, leb, ltb, length,
  if◌then◌else◌,
}
use hancoin.Machine.{Profile, sub_u64, Clock, secs}
use hancoin.Coinjoin.Data.{
  CoinJoinStatus, waiting, collecting_inputs, collecting_outputs, collecting_signatures,
  broadcasting, completed, failed, timed_out, status_eq, TxInput, TxOutput, TxSignature,
  CoinJoinSession, CoinJoinSessionInfo, set_insert,
}

-- `uuid` is the fresh identifier that `Uuid::new_v4` gives.
unfoldable pub new : String → ℕ → ℕ → ℕ → ℕ → ℕ → Clock → CoinJoinSession
new uuid min_participants max_participants target_amount fee_rate timeout now = record {
  id = uuid;
  status = waiting;
  created_at = secs now;
  last_active = secs now;
  min_participants = min_participants;
  max_participants = max_participants;
  target_amount = target_amount;
  fee_rate = fee_rate;
  timeout = timeout;
  participants = [];
  inputs = [];
  outputs = [];
  signatures = [];
  final_txid = none;
}

unfoldable pub update_last_active : CoinJoinSession → Clock → CoinJoinSession
update_last_active s now = record s { last_active = secs now }

-- The last test of the four collecting methods: `if count >= target { self.status = next }`.
abbrev pub advance : CoinJoinStatus → ℕ → ℕ → CoinJoinSession → CoinJoinSession
advance next target count s = if leb target count then record s { status = next } else s

unfoldable pub add_participant : CoinJoinSession → String → Clock → CoinJoinSession × Bool
unfolding update_last_active
add_participant s participant_id now =
    if not (status_eq s.status waiting)
    then (s, false)
    else (let joined : CoinJoinSession =
          update_last_active (record s { participants = set_insert participant_id s.participants })
            now in
        (
          advance collecting_inputs joined.min_participants (length joined.participants) joined,
          true,
        ))

unfoldable pub add_input : CoinJoinSession → TxInput → Clock → CoinJoinSession × Bool
unfolding update_last_active
add_input s input now =
    if not (status_eq s.status collecting_inputs)
    then (s, false)
    else (let pushed : CoinJoinSession =
          update_last_active (record s { inputs = s.inputs ++ input ∷ [] }) now in
        (
          advance collecting_outputs (length pushed.participants) (length pushed.inputs) pushed,
          true,
        ))

unfoldable pub add_output : CoinJoinSession → TxOutput → Clock → CoinJoinSession × Bool
unfolding update_last_active
add_output s output now =
    if not (status_eq s.status collecting_outputs)
    then (s, false)
    else (let pushed : CoinJoinSession =
          update_last_active (record s { outputs = s.outputs ++ output ∷ [] }) now in
        (
          advance collecting_signatures (length pushed.participants) (length pushed.outputs) pushed,
          true,
        ))

unfoldable pub add_signature : CoinJoinSession → TxSignature → Clock → CoinJoinSession × Bool
unfolding update_last_active
add_signature s signature now =
    if not (status_eq s.status collecting_signatures)
    then (s, false)
    else if leb (length s.inputs) signature.input_index
    then (s, false)
    else (let pushed : CoinJoinSession =
          update_last_active (record s { signatures = s.signatures ++ signature ∷ [] }) now in
        (advance broadcasting (length pushed.inputs) (length pushed.signatures) pushed, true))

unfoldable pub complete : CoinJoinSession → String → Clock → CoinJoinSession × Bool
unfolding update_last_active
complete s txid now =
    if not (status_eq s.status broadcasting)
    then (s, false)
    else (update_last_active (record s { final_txid = some txid; status = completed }) now, true)

unfoldable pub fail : CoinJoinSession → Clock → CoinJoinSession
unfolding update_last_active
fail s now = update_last_active (record s { status = failed }) now

-- `none` is the panic of a debug build where the subtraction overflows.
unfoldable pub check_timeout : Profile → CoinJoinSession → Clock → Option (CoinJoinSession × Bool)
check_timeout profile s now = elim (sub_u64 profile (secs now) s.last_active) [
  | none ↦ none
  | some idle ↦
      if ltb s.timeout idle then some (record s { status = timed_out }, true) else some (s, false)
]

unfoldable pub get_info : CoinJoinSession → CoinJoinSessionInfo
get_info s = record {
  id = s.id;
  status = s.status;
  created_at = s.created_at;
  last_active = s.last_active;
  min_participants = s.min_participants;
  max_participants = s.max_participants;
  target_amount = s.target_amount;
  fee_rate = s.fee_rate;
  timeout = s.timeout;
  participants_count = length s.participants;
  inputs_count = length s.inputs;
  outputs_count = length s.outputs;
  signatures_count = length s.signatures;
  final_txid = s.final_txid;
}
