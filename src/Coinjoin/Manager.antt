-- ===== src/Coinjoin/Manager.antt =====
-- `CoinJoinManager` of src/coinjoin.rs: the sessions by their identifiers. The file of the source
-- ends in the middle of `add_input`; what would follow its last test is the argument `finish`.
pub mod Laws
pub mod Life
pub mod Apart
use hancoin.Prelude.{ℕ, String, Bool, true, false, Option, none, some, not, contains, if◌then◌else◌}
use hancoin.Machine.{Clock}
use hancoin.Stores.{DashMap}
use hancoin.Coinjoin.Data.{TxInput, TxOutput, TxSignature, CoinJoinSession, CoinJoinSessionInfo}
use hancoin.Coinjoin.Session
use hancoin.Coinjoin.Session.{new, add_participant, get_info}

pub record CoinJoinRequest : Type 0 where
  pub min_participants : Option ℕ
  pub max_participants : Option ℕ
  pub target_amount : ℕ
  pub fee_rate : Option ℕ
  pub timeout : Option ℕ
  pub participant_id : String

pub record InputRequest : Type 0 where
  pub participant_id : String
  pub input : TxInput

pub record CoinJoinManager (D : DashMap CoinJoinSession) : Type 0 where
  pub sessions : D.Map
  pub session_timeout : ℕ

-- The messages of the errors, as their templates with what is put in.
pub data ManagerError : Type 0 where
  session_missing : String → ManagerError
  not_a_participant : String → ManagerError
  wrong_status : ManagerError

pub data Answer (A : Type 0) : Type 0 where
  ok : A → Answer A
  err : ManagerError → Answer A

-- `Option::unwrap_or`.
abbrev pub unwrap_or {ℓ} : {A : Type ℓ} → Option A → A → A
unwrap_or none d = d
unwrap_or (some a) d = a

-- What the task that `CoinJoinManager::new` spawns waits for: its timer, or the end of the manager,
-- which holds the only sender.
pub data CleanupEvent : Type 0 where
  tick closed : CleanupEvent

module _ (D : DashMap CoinJoinSession) where
  -- `CoinJoinManager::new`.
  pub new_manager : ℕ → CoinJoinManager D
  new_manager session_timeout = record { sessions = D.empty; session_timeout = session_timeout }

  -- One turn of that task, with whether another one follows. A tick is only logged.
  unfoldable pub cleanup_turn : CoinJoinManager D → CleanupEvent → CoinJoinManager D × Bool
  cleanup_turn m tick = (m, true)
  cleanup_turn m closed = (m, false)

  -- The session that a request asks for, with its first participant.
  pub requested : ℕ → CoinJoinRequest → String → Clock → Clock → CoinJoinSession
  requested session_timeout req uuid now later =
      (add_participant
        (new uuid (unwrap_or req.min_participants 3) (unwrap_or req.max_participants 10)
          req.target_amount (unwrap_or req.fee_rate 1) (unwrap_or req.timeout session_timeout) now)
        req.participant_id later).0

  -- The clock is read twice, and `uuid` is the fresh identifier.
  pub create_session :
      CoinJoinManager D
      → CoinJoinRequest
      → String
      → Clock
      → Clock
      → CoinJoinManager D × CoinJoinSessionInfo
  create_session m req uuid now later =
      let session : CoinJoinSession = requested m.session_timeout req uuid now later in
      (record m { sessions = D.insert m.sessions session.id session }, get_info session)

  unfoldable pub get_session : CoinJoinManager D → String → Option CoinJoinSession
  get_session m id = D.get m.sessions id

  -- The guard that `get_mut` gives writes to the session in the map.
  pub add_input_to :
      {A : Type 0}
      → (CoinJoinSession → Answer A)
      → CoinJoinManager D
      → String
      → InputRequest
      → CoinJoinSession
      → Clock
      → CoinJoinManager D × Answer A
  add_input_to finish m session_id req session now =
      if not (contains session.participants req.participant_id)
      then (m, err (not_a_participant req.participant_id))
      else (let added : CoinJoinSession × Bool = Session.add_input session req.input now in
          let m' : CoinJoinManager D = record m {
            sessions = D.insert m.sessions session_id added.0;
          } in
          if not added.1 then (m', err wrong_status) else (m', finish added.0))

  pub add_input :
      {A : Type 0}
      → (CoinJoinSession → Answer A)
      → CoinJoinManager D
      → String
      → InputRequest
      → Clock
      → CoinJoinManager D × Answer A
  unfolding add_input_to
  add_input finish m session_id req now = elim (D.get m.sessions session_id) [
    | none ↦ (m, err (session_missing session_id))
    | some session ↦ add_input_to finish m session_id req session now
  ]
