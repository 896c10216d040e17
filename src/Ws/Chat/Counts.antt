-- ===== src/Ws/Chat/Counts.antt =====
-- The counters of `WsState` against the running tasks and the frames.
use hancoin.Prelude.{
  false, ℕ, ◌≡◌, ◌≤◌, ◌<◌, ◌+◌, refl, ◌∙◌, ◌-◌, true, List, [], ◌∷◌, Option, suc, arith, nat_eq,
  leb, length, inl, inr, Bool-cases,
}
use hancoin.Machine.{Profile, add_u64-some, sub_u64-some, u64_mod}
use hancoin.Ws.Socket.{WsState, max_connections, Frame, Flow, enter, leave}
use hancoin.Ws.Chat.Turns.{IsSound, handle_event-IsSound}
use hancoin.Ws.Chat.{
  Server, idle, Input, runs, remove, left, end_turn, arrived, apply, apply_all, IsCounted,
}

length-remove :
    (ts : List ℕ) (task : ℕ) → runs ts task ≡ true → suc (length (remove ts task)) ≡ length ts
length-remove [] task h = cc
length-remove (t ∷ ts) task h = elim (Bool-cases (nat_eq t task)) [
  | inl e ↦ ground arith
  | inr e ↦ ground (arith, length-remove ts task)
]

arrived-IsCounted :
    (profile : Profile) (n : ℕ) (server : Server) (now : ℕ)
    → IsCounted n server
    → IsCounted (suc n) (arrived profile server now)
unfolding arrived enter
arrived-IsCounted profile n server now h =
    elim (Bool-cases (leb max_connections server.state.active_connections)) [
      | inl full ↦
          rw (full, arrived)
            (record {
              connections = h.connections;
              limit = h.limit;
              messages = h.messages;
              few = ground (arith, h.few);
            })
      | inr free ↦
          rw (free, add_u64-some profile server.state.active_connections 1 (ground arith), arrived)
            (record {
              connections = ground (arith, h.connections);
              limit = ground (arith, h.connections);
              messages = h.messages;
              few = ground (arith, h.few);
            })
    ]

pub left_lem :
    (profile : Profile) (state : WsState)
    → 1 ≤ state.active_connections
    → state.active_connections < u64_mod
    → left profile state ≡ record state { active_connections = state.active_connections - 1 }
unfolding left leave
left_lem profile state h k =
    rw (sub_u64-some profile state.active_connections 1 h k, left, leave) refl

end_turn-IsCounted :
    (profile : Profile) (n : ℕ) (server : Server) (task : ℕ) (flow : Flow) (sends : Option Frame)
    (state : WsState)
    → runs server.live task ≡ true
    → IsSound server.state (record { flow = flow; sends = sends; state = state })
    → IsCounted n server
    → IsCounted
        (suc n)
        (end_turn profile server task (record { flow = flow; sends = sends; state = state }))
unfolding end_turn
end_turn-IsCounted profile n server task Flow.go_on sends state r t h = record {
  connections = t.connections ∙ h.connections;
  limit = h.limit;
  messages = ground (arith, t.counts server.log, h.messages);
  few = ground (arith, t.few server.log, h.few);
}
end_turn-IsCounted profile n server task Flow.stop sends state r t h =
    rw
      (left_lem profile state
        (ground (arith, t.connections, h.connections, length-remove server.live task r))
        (ground (arith, t.connections, h.connections, h.limit)))
      (record {
        connections =
            ground (arith, t.connections, h.connections, length-remove server.live task r);
        limit = ground (arith, h.limit, length-remove server.live task r);
        messages = ground (arith, t.counts server.log, h.messages);
        few = ground (arith, t.few server.log, h.few);
      })
end_turn-IsCounted profile n server task Flow.panic sends state r t h = absurd (t.flows refl)

pub apply-IsCounted :
    (profile : Profile) (n : ℕ) (server : Server) (input : Input)
    → suc n < u64_mod
    → IsCounted n server
    → IsCounted (suc n) (apply profile server input)
unfolding apply
apply-IsCounted profile n server (Input.arrive true now) b h =
    arrived-IsCounted profile n server now h
apply-IsCounted profile n server (Input.arrive false now) b h = record {
  connections = h.connections;
  limit = h.limit;
  messages = h.messages;
  few = ground (arith, h.few);
}
apply-IsCounted profile n server (Input.turn task event) b h =
    elim (Bool-cases (runs server.live task)) [
      | inl r ↦
          rw (r, apply)
            (end_turn-IsCounted profile n server task _ _ _ r
              (handle_event-IsSound profile server.state event (ground (arith, h.messages, h.few)))
              h)
      | inr r ↦
          rw (r, apply)
            (record {
              connections = h.connections;
              limit = h.limit;
              messages = h.messages;
              few = ground (arith, h.few);
            })
    ]

pub idle-IsCounted : IsCounted 0 idle
idle-IsCounted = record {
  connections = refl;
  limit = ground arith;
  messages = refl;
  few = ground arith;
}

-- A larger bound holds too.
pub IsCounted-mono : (n k : ℕ) (server : Server) → n ≤ k → IsCounted n server → IsCounted k server
IsCounted-mono n k server b h = record {
  connections = h.connections;
  limit = h.limit;
  messages = h.messages;
  few = ground (arith, h.few);
}

apply_all-IsCounted :
    (profile : Profile) (n k : ℕ) (server : Server) (inputs : List Input)
    → n + length inputs ≤ k
    → k < u64_mod
    → IsCounted n server
    → IsCounted k (apply_all profile server inputs)
unfolding apply_all
apply_all-IsCounted profile n k server [] a b h = IsCounted-mono n k server (omega arith) h
apply_all-IsCounted profile n k server (input ∷ inputs) a b h =
    apply_all-IsCounted profile (suc n) k (apply profile server input) inputs (omega arith) b
      (apply-IsCounted profile n server input (omega arith) h)

-- However connections come in and tasks take turns, fewer than 2 ^ 64 times from the start, the
-- counter of connections is the number of running tasks, which is at most 1000, and the counter of
-- messages is the number of echoes that were sent or tried.
pub apply_all-idle-IsCounted :
    (profile : Profile) (inputs : List Input)
    → length inputs < u64_mod
    → IsCounted (length inputs) (apply_all profile idle inputs)
apply_all-idle-IsCounted profile inputs b =
    apply_all-IsCounted profile 0 (length inputs) idle inputs (omega arith) b idle-IsCounted
