-- ===== src/Ws/Alone.antt =====
-- One connection of `handle_ws` of src/ws.rs from its start to its end, while no other task has a turn.
use hancoin.Prelude.{ℕ, ◌≡◌, ◌<◌, ◌+◌, refl, ◌∙◌, List, [], ◌∷◌, ◌++◌, Option, some, arith, length}
use hancoin.Machine.{Profile, add_u64-some, u64_mod}
use hancoin.Ws.Socket.{WsState, max_connections, Event, Frame, Flow, Entry, handle_event, enter}
use hancoin.Ws.Chat.{logged, left, echoes}
use hancoin.Ws.Chat.Counts.{left_lem}
use hancoin.Ws.Chat.Turns.{IsSound, handle_event-IsSound}

-- How far a task gets with the events so far: `go_on` is a task that waits. The frames stand in the
-- order in which they were sent or tried.
pub record Run : Type 0 where
  pub flow : Flow
  pub frames : List Frame
  pub state : WsState

-- What comes after a turn: the rest of the loop, its end, or the end of the task.
unfoldable pub continue_with : Flow → Option Frame → WsState → Run → Run
continue_with Flow.go_on sends state rest = record rest { frames = logged sends rest.frames }
continue_with Flow.stop sends state rest = record {
  flow = Flow.stop;
  frames = logged sends [];
  state = state;
}
continue_with Flow.panic sends state rest = record { flow = Flow.panic; frames = []; state = state }

unfoldable pub loop : Profile → WsState → List Event → Run
loop profile state [] = record { flow = Flow.go_on; frames = []; state = state }
loop profile state (e ∷ events) =
    let t = handle_event profile state e in
    continue_with t.flow t.sends t.state (loop profile t.state events)

-- After the loop, what stands behind it; a task that waits or has panicked does not come there.
abbrev pub finish : Profile → Run → Run
finish profile run = elim run.flow [
  | Flow.stop ↦ record run { state = left profile run.state }
  | _ ↦ run
]

unfoldable pub handle_ws : Profile → WsState → ℕ → List Event → Run
handle_ws profile state now events = elim (enter profile state now) [
  | Entry.refused ↦ record {
    flow = Flow.stop;
    frames = Frame.too_many_connections ∷ [];
    state = state;
  }
  | Entry.panicked ↦ record { flow = Flow.panic; frames = []; state = state }
  | Entry.entered s ↦ finish profile (loop profile s events)
]

-- The loop comes to its end, with the connections as they were and a message counted for each echo.
record IsOver (state : WsState) (run : Run) : Type 0 where
  ends : run.flow ≡ Flow.stop
  connections : run.state.active_connections ≡ state.active_connections
  messages : run.state.message_count ≡ state.message_count + echoes run.frames

continue_with-IsOver :
    (state : WsState) (flow : Flow) (sends : Option Frame) (next : WsState) (rest : Run)
    → IsSound state (record { flow = flow; sends = sends; state = next })
    → (flow ≡ Flow.go_on → IsOver next rest)
    → IsOver state (continue_with flow sends next rest)
unfolding continue_with
continue_with-IsOver state Flow.go_on sends next rest s h =
    let r = h refl in
    record {
      ends = r.ends;
      connections = r.connections ∙ s.connections;
      messages = omega (arith, r.messages, s.counts rest.frames);
    }
continue_with-IsOver state Flow.stop sends next rest s h = record {
  ends = refl;
  connections = s.connections;
  messages = omega (arith, s.counts []);
}
continue_with-IsOver state Flow.panic sends next rest s h = absurd (s.flows refl)

-- With the end of the stream among the events, after fewer than 2 ^ 64 messages, the loop ends.
loop-IsOver :
    (profile : Profile) (state : WsState) (events later : List Event)
    → state.message_count + length events < u64_mod
    → IsOver state (loop profile state (events ++ Event.ended ∷ later))
unfolding loop continue_with
loop-IsOver profile state [] later b =
    unfold handle_event in record { ends = refl; connections = refl; messages = omega arith }
loop-IsOver profile state (e ∷ events) later b =
    let s = handle_event-IsSound profile state e (omega arith) in
    continue_with-IsOver state _ _ _ _ s (λ f.
      loop-IsOver profile (handle_event profile state e).state events later
        (omega (arith, s.counts [], s.few [])))

enter_lem :
    (profile : Profile) (state : WsState) (now : ℕ)
    → state.active_connections < max_connections
    → enter profile state now
      ≡ Entry.entered (record state {
        active_connections = state.active_connections + 1;
        last_connection_time = some now;
      })
unfolding enter
enter_lem profile state now a = ground (arith, add_u64-some profile state.active_connections 1)

finish_lem :
    (profile : Profile) (state : WsState) (run : Run)
    → state.active_connections < max_connections
    → IsOver (record state { active_connections = state.active_connections + 1 }) run
    → ((finish profile run).flow ≡ Flow.stop)
      × ((finish profile run).state.active_connections ≡ state.active_connections)
      × ((finish profile run).state.message_count
          ≡ state.message_count + echoes (finish profile run).frames)
finish_lem profile state run a v =
    let l =
      left_lem profile run.state (omega (arith, v.connections)) (omega (arith, v.connections)) in
    ground (arith, v.ends, v.connections, v.messages, l)

-- A connection below the limit, whose stream ends at last, ends: whatever came before, after fewer
-- than 2 ^ 64 messages, the counter of connections is again what it was, and the counter of messages
-- has grown by the echoes.
pub handle_ws_ends :
    (profile : Profile) (state : WsState) (now : ℕ) (events later : List Event)
    → state.active_connections < max_connections
    → state.message_count + length events < u64_mod
    → let r = handle_ws profile state now (events ++ Event.ended ∷ later) in
      (r.flow ≡ Flow.stop)
      × (r.state.active_connections ≡ state.active_connections)
      × (r.state.message_count ≡ state.message_count + echoes r.frames)
unfolding handle_ws
handle_ws_ends profile state now events later a b =
    let s : WsState = record state {
      active_connections = state.active_connections + 1;
      last_connection_time = some now;
    } in
    let v = loop-IsOver profile s events later b in
    rw (enter_lem profile state now a, handle_ws)
      (finish_lem profile (record state { last_connection_time = some now })
        (loop profile s (events ++ Event.ended ∷ later)) a v)
