-- ===== src/P2p/Peers.antt =====
-- `P2PState` of src/p2p.rs, the event loop of `start_p2p` and its cleaning task, which share the state
-- under a lock.
use hancoin.Prelude.{
  ℕ, ◌-◌, String, Bool, true, false, List, [], ◌∷◌, Option, none, some, ltb, ◌==◌, if◌then◌else◌,
}
use hancoin.Machine.{Profile, add_u64}
use hancoin.Tor
use hancoin.Tor.{TorConfig}

-- Times are in seconds of a monotonic clock.
pub record P2PConfig : Type 0 where
  pub max_message_size : ℕ
  pub max_connections : ℕ
  pub message_rate_limit : ℕ
  pub peer_timeout : ℕ
  pub tor_config : TorConfig

abbrev pub default : P2PConfig
default = record {
  max_message_size = 1024;
  max_connections = 100;
  message_rate_limit = 10;
  peer_timeout = 30;
  tor_config = Tor.default;
}

-- The map from peers to the times of their entries.
abbrev pub Peers : Type 0
Peers = String → Option ℕ

abbrev pub insert : Peers → String → ℕ → Peers
insert peers id time = λ j. if id == j then some time else peers j

abbrev pub remove : Peers → String → Peers
remove peers id = λ j. if id == j then none else peers j

pub record P2PState : Type 0 where
  pub active_peers : Peers
  pub message_count : ℕ
  pub last_message_time : Option ℕ

abbrev pub initial : P2PState
initial = record { active_peers = λ j. none; message_count = 0; last_message_time = none }

-- What the swarm tells: `message` is one that the validator let pass, `other` an event that is only
-- logged, `exhausted` the end of the stream.
pub data SwarmEvent : Type 0 where
  message : (source : String) (now : ℕ) → SwarmEvent
  established : (id : String) (now : ℕ) → SwarmEvent
  closed : (id : String) → SwarmEvent
  other exhausted : SwarmEvent

-- The validator: the size, then the rate.
unfoldable pub validate_message : P2PConfig → ℕ → Bool → Bool
validate_message config size limited =
    if ltb config.max_message_size size then false else if limited then false else true

-- One turn of the event loop; `none` is a panic.
unfoldable pub handle_event : Profile → P2PState → SwarmEvent → Option P2PState
handle_event profile state (message source now) = elim (add_u64 profile state.message_count 1) [
  | none ↦ none
  | some n ↦ some (record state { message_count = n; last_message_time = some now })
]
handle_event profile state (established id now) =
    some (record state { active_peers = insert state.active_peers id now })
handle_event profile state (closed id) =
    some (record state { active_peers = remove state.active_peers id })
handle_event profile state other = some state
handle_event profile state exhausted = some state

-- `now.duration_since(*last_seen) < config.peer_timeout`, which is 0 for a time that is ahead.
abbrev pub fresh : P2PConfig → ℕ → Option ℕ → Option ℕ
fresh config now none = none
fresh config now (some last_seen) =
    if ltb (now - last_seen) config.peer_timeout then some last_seen else none

-- One turn of the cleaning task.
unfoldable pub clean : P2PConfig → P2PState → ℕ → P2PState
clean config state now = record state {
  active_peers = λ j. fresh config now (state.active_peers j);
}

-- The turns of the two tasks.
pub data Step : Type 0 where
  event : SwarmEvent → Step
  cleanup : (now : ℕ) → Step

unfoldable pub step : Profile → P2PConfig → P2PState → Step → Option P2PState
step profile config state (event e) = handle_event profile state e
step profile config state (cleanup now) = some (clean config state now)

unfoldable pub run : Profile → P2PConfig → P2PState → List Step → Option P2PState
run profile config state [] = some state
run profile config state (s ∷ steps) = elim (step profile config state s) [
  | none ↦ none
  | some next ↦ run profile config next steps
]
