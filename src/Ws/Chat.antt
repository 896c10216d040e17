-- ===== src/Ws/Chat.antt =====
-- The tasks of `handle_ws` of src/ws.rs together: connections come in and tasks take their turns, in any
-- order, and all of them share one `WsState`.
pub mod Turns
pub mod Counts
pub mod Gate
use hancoin.Prelude.{
  String, ℕ, ◌≡◌, ◌≢◌, ◌≤◌, ◌<◌, ◌+◌, refl, sym, ap, ◌∙◌, ◌-◌, Bool, true, false, List, [], ◌∷◌,
  ◌++◌, Option, none, some, zero, suc, arith, nat_eq, leb, ltb, length, if◌then◌else◌, ◌⊎◌, inl,
  inr, Bool-cases, Option-cases,
}
use hancoin.Machine.{Profile, add_u64, sub_u64, add_u64-some, sub_u64-some, u64_mod}
use hancoin.Stores.{DashSet}
use hancoin.Ws.Token.{Decode, JwtValidator, validate_token}
use hancoin.Ws.Socket.{
  WsState, default, max_connections, Event, Content, Frame, Flow, Turn, Entry, Message,
  handle_content, handle_event, enter, leave, unless_failed, max_message_size,
}

-- `live` has the running tasks, `log` the frames that they sent, the last one first.
pub record Server : Type 0 where
  pub state : WsState
  pub live : List ℕ
  pub started : ℕ
  pub log : List Frame

abbrev pub idle : Server
idle = record { state = default; live = []; started = 0; log = [] }

pub data Input : Type 0 where
  arrive : (authorised : Bool) (now : ℕ) → Input
  turn : (task : ℕ) (event : Event) → Input

abbrev pub runs : List ℕ → ℕ → Bool
runs [] task = false
runs (t ∷ ts) task = if nat_eq t task then true else runs ts task

abbrev pub remove : List ℕ → ℕ → List ℕ
remove [] task = []
remove (t ∷ ts) task = if nat_eq t task then ts else t ∷ remove ts task

abbrev pub logged : Option Frame → List Frame → List Frame
logged none log = log
logged (some f) log = f ∷ log

-- After the loop, `leave`; a panic there ends the task too.
unfoldable pub left : Profile → WsState → WsState
left profile state = elim (leave profile state) [ none ↦ state | some s ↦ s ]

unfoldable pub end_turn : Profile → Server → ℕ → Turn → Server
end_turn profile server task t = elim t.flow [
  | Flow.go_on ↦ record server { state = t.state; log = logged t.sends server.log }
  | Flow.stop ↦ record server {
    state = left profile t.state;
    live = remove server.live task;
    log = logged t.sends server.log;
  }
  | Flow.panic ↦ record server { live = remove server.live task }
]

unfoldable pub arrived : Profile → Server → ℕ → Server
arrived profile server now = elim (enter profile server.state now) [
  | Entry.refused ↦ record server { log = Frame.too_many_connections ∷ server.log }
  | Entry.panicked ↦ server
  | Entry.entered s ↦ record server {
    state = s;
    live = server.started ∷ server.live;
    started = server.started + 1;
  }
]

-- A turn of a task that has ended does not happen.
unfoldable pub apply : Profile → Server → Input → Server
apply profile server (Input.arrive true now) = arrived profile server now
apply profile server (Input.arrive false now) = record server {
  log = Frame.unauthorized ∷ server.log;
}
apply profile server (Input.turn task event) =
    if runs server.live task
    then end_turn profile server task (handle_event profile server.state event)
    else server

-- `chat_routes`: a request to connect, with the parameter `token` of its query.
module _ (D : DashSet) (decode : Decode) where
  unfoldable pub request : JwtValidator D → Option String → ℕ → Input
  request v none now = Input.arrive false now
  request v (some token) now = Input.arrive (validate_token D decode v token) now

unfoldable pub apply_all : Profile → Server → List Input → Server
apply_all profile server [] = server
apply_all profile server (input ∷ inputs) = apply_all profile (apply profile server input) inputs

-- The echoes among the frames.
abbrev pub echoes : List Frame → ℕ
echoes [] = 0
echoes (Frame.echo s ∷ fs) = suc (echoes fs)
echoes (f ∷ fs) = echoes fs

-- The counters say what there is: the connections are the running tasks, at most 1000, and the
-- messages are the echoes, at most n.
pub record IsCounted (n : ℕ) (server : Server) : Type 0 where
  pub connections : server.state.active_connections ≡ length server.live
  pub limit : length server.live ≤ max_connections
  pub messages : server.state.message_count ≡ echoes server.log
  pub few : echoes server.log ≤ n
