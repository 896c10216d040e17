-- ===== src/Ws/Chat/Turns.antt =====
-- What one turn of a task does to the counters of `WsState`.
use hancoin.Prelude.{
  ◌≡◌, ◌≢◌, ◌≤◌, ◌<◌, ◌+◌, refl, sym, ap, Bool, true, false, List, Option, none, some, suc, arith,
  ltb, inl, inr, Bool-cases,
}
use hancoin.Machine.{Profile, add_u64-some, u64_mod}
use hancoin.Ws.Socket.{
  WsState, Event, Content, Frame, Flow, Turn, handle_content, handle_event, unless_failed,
  max_message_size,
}
use hancoin.Ws.Chat.{logged, echoes}

-- What a turn does to the counters, next to what it sends.
pub record IsSound (state : WsState) (t : Turn) : Type 0 where
  pub connections : t.state.active_connections ≡ state.active_connections
  pub counts :
      (log : List Frame)
      → t.state.message_count + echoes log ≡ state.message_count + echoes (logged t.sends log)
  pub few : (log : List Frame) → echoes (logged t.sends log) ≤ suc (echoes log)
  pub flows : t.flow ≢ Flow.panic

-- A turn that counts nothing and echoes nothing.
still-IsSound :
    (state : WsState) (flow : Flow) (sends : Option Frame)
    → flow ≢ Flow.panic
    → ((log : List Frame) → echoes (logged sends log) ≡ echoes log)
    → IsSound state (record { flow = flow; sends = sends; state = state })
still-IsSound state flow sends f e = record {
  connections = refl;
  counts = λ log. ap (◌+◌ state.message_count) (sym (e log));
  few = λ log. ground (arith, e log);
  flows = f;
}

unless_failed-ne : (sent : Bool) → unless_failed sent ≢ Flow.panic
unless_failed-ne true = λ e. cc
unless_failed-ne false = λ e. cc

handle_content-IsSound :
    (profile : Profile) (state : WsState) (content : Content) (sent : Bool)
    → state.message_count + 1 < u64_mod
    → IsSound state (handle_content profile state content sent)
unfolding handle_content
handle_content-IsSound profile state (Content.text s) sent b =
    rw (add_u64-some profile state.message_count 1 b, handle_content)
      (record {
        connections = refl;
        counts = λ log. ground arith;
        few = λ log. ground arith;
        flows = unless_failed-ne sent;
      })
handle_content-IsSound profile state Content.binary sent b =
    still-IsSound state Flow.go_on (some Frame.binary_not_supported) (λ e. cc) (λ log. refl)
handle_content-IsSound profile state Content.close sent b =
    still-IsSound state Flow.stop none (λ e. cc) (λ log. refl)
handle_content-IsSound profile state Content.other sent b =
    still-IsSound state Flow.go_on none (λ e. cc) (λ log. refl)

pub handle_event-IsSound :
    (profile : Profile) (state : WsState) (event : Event)
    → state.message_count + 1 < u64_mod
    → IsSound state (handle_event profile state event)
unfolding handle_event
handle_event-IsSound profile state (Event.heartbeat sent) b =
    still-IsSound state (unless_failed sent) (some Frame.ping) (unless_failed-ne sent) (λ log. refl)
handle_event-IsSound profile state (Event.received msg true sent) b =
    elim (Bool-cases (ltb max_message_size msg.size)) [
      | inl large ↦
          rw (large, handle_event)
            (still-IsSound state Flow.go_on (some Frame.message_too_large) (λ e. cc) (λ log. refl))
      | inr small ↦
          rw (small, handle_event)
            (still-IsSound state Flow.go_on (some Frame.rate_limit_exceeded) (λ e. cc)
              (λ log. refl))
    ]
handle_event-IsSound profile state (Event.received msg false sent) b =
    elim (Bool-cases (ltb max_message_size msg.size)) [
      | inl large ↦
          rw (large, handle_event)
            (still-IsSound state Flow.go_on (some Frame.message_too_large) (λ e. cc) (λ log. refl))
      | inr small ↦
          rw (small, handle_event) (handle_content-IsSound profile state msg.content sent b)
    ]
handle_event-IsSound profile state Event.error b =
    still-IsSound state Flow.stop none (λ e. cc) (λ log. refl)
handle_event-IsSound profile state Event.ended b =
    still-IsSound state Flow.stop none (λ e. cc) (λ log. refl)
