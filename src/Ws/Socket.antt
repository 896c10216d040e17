-- ===== src/Ws/Socket.antt =====
-- `WsState` and `handle_ws` of src/ws.rs: one task for each connection, and one state for all of
-- them. A task takes the lock for one change at a time, so that the tasks' turns interleave freely.
-- Whether a frame is sent, and what the rate limiter answers, is part of a turn's event.
use hancoin.Prelude.{ℕ, Bool, true, false, ◌++◌, Option, none, some, leb, ltb, if◌then◌else◌}
use hancoin.Machine.{Profile, add_u64, sub_u64}
use hancoin.Account.{codes}
use hancoin.Text.{Text}

-- Times are readings of a monotonic clock.
pub record WsState : Type 0 where
  pub active_connections : ℕ
  pub last_connection_time : Option ℕ
  pub message_count : ℕ

abbrev pub default : WsState
default = record { active_connections = 0; last_connection_time = none; message_count = 0 }

abbrev pub max_message_size : ℕ
max_message_size = 1024

abbrev pub max_connections : ℕ
max_connections = 1000

-- What a message is to the loop: `to_str`, `is_binary` and `is_close` of it.
pub data Content : Type 0 where
  text : Text → Content
  binary close other : Content

-- `size` is the length of `as_bytes`.
pub record Message : Type 0 where
  pub content : Content
  pub size : ℕ

-- What the two branches of `select!` wait for; `sent` is whether the frame that is sent next leaves,
-- `limited` is an error of the rate limiter.
pub data Event : Type 0 where
  heartbeat : (sent : Bool) → Event
  received : (msg : Message) (limited sent : Bool) → Event
  error ended : Event

-- The frames that the server sends.
pub data Frame : Type 0 where
  ping unauthorized too_many_connections message_too_large rate_limit_exceeded
        binary_not_supported :
      Frame
  echo : Text → Frame

-- How a turn of the loop ends; a task that panics leaves without the last lines.
pub data Flow : Type 0 where
  go_on stop panic : Flow

pub record Turn : Type 0 where
  pub flow : Flow
  pub sends : Option Frame
  pub state : WsState

abbrev pub unless_failed : Bool → Flow
unless_failed true = go_on
unless_failed false = stop

-- The body of the `else if let` chain, once size and rate are checked.
unfoldable pub handle_content : Profile → WsState → Content → Bool → Turn
handle_content profile state (text s) sent = elim (add_u64 profile state.message_count 1) [
  | none ↦ record { flow = panic; sends = none; state = state }
  | some n ↦ record {
    flow = unless_failed sent;
    sends = some (echo (codes "echo: " ++ s));
    state = record state { message_count = n };
  }
]
handle_content profile state binary sent = record {
  flow = go_on;
  sends = some binary_not_supported;
  state = state;
}
handle_content profile state close sent = record { flow = stop; sends = none; state = state }
handle_content profile state other sent = record { flow = go_on; sends = none; state = state }

-- One turn of the loop.
unfoldable pub handle_event : Profile → WsState → Event → Turn
handle_event profile state (heartbeat sent) = record {
  flow = unless_failed sent;
  sends = some ping;
  state = state;
}
handle_event profile state (received msg limited sent) =
    if ltb max_message_size msg.size
    then record { flow = go_on; sends = some message_too_large; state = state }
    else if limited
    then record { flow = go_on; sends = some rate_limit_exceeded; state = state }
    else handle_content profile state msg.content sent
handle_event profile state error = record { flow = stop; sends = none; state = state }
handle_event profile state ended = record { flow = stop; sends = none; state = state }

-- How the first block ends.
pub data Entry : Type 0 where
  refused panicked : Entry
  entered : WsState → Entry

-- The first block.
unfoldable pub enter : Profile → WsState → ℕ → Entry
enter profile state now =
    if leb max_connections state.active_connections
    then refused
    else elim (add_u64 profile state.active_connections 1) [
      | none ↦ panicked
      | some n ↦ entered (record state { active_connections = n; last_connection_time = some now })
    ]

-- The last lines; `none` is a panic.
unfoldable pub leave : Profile → WsState → Option WsState
leave profile state = elim (sub_u64 profile state.active_connections 1) [
  | none ↦ none
  | some n ↦ some (record state { active_connections = n })
]
