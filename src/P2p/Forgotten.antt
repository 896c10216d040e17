-- ===== src/P2p/Forgotten.antt =====
-- What the entries of `active_peers` of src/p2p.rs say of the connections.
use text.Mathlib.TextPositions.{eq_refl}
use hancoin.Prelude.{
  ◌++◌, ℕ, suc, ◌≡◌, ◌≤◌, ◌<◌, ◌-◌, ◌+◌, refl, ap, ◌∙◌, String, false, List, [], ◌∷◌, Option, none,
  some, arith, ltb, ◌==◌, if◌then◌else◌, Bool-cases, inl, inr, ◌⊎◌,
}
use hancoin.Machine.{Profile, add_u64-some, u64_mod}
use hancoin.P2p.Peers.{P2PConfig, P2PState, SwarmEvent, handle_event, fresh, clean, Step, step, run}

-- The entry that a step leaves for a peer whose entry is `seen`.
abbrev pub seen_after : P2PConfig → String → Option ℕ → Step → Option ℕ
seen_after config id seen (Step.event (SwarmEvent.established j now)) =
    if j == id then some now else seen
seen_after config id seen (Step.event (SwarmEvent.closed j)) = if j == id then none else seen
seen_after config id seen (Step.event _) = seen
seen_after config id seen (Step.cleanup now) = fresh config now seen

abbrev pub seen_last : P2PConfig → String → Option ℕ → List Step → Option ℕ
seen_last config id seen [] = seen
seen_last config id seen (s ∷ steps) = seen_last config id (seen_after config id seen s) steps

-- The messages among the steps.
abbrev pub messages : List Step → ℕ
messages [] = 0
messages (Step.event (SwarmEvent.message j now) ∷ steps) = suc (messages steps)
messages (_ ∷ steps) = messages steps

-- What the state is after some steps: a peer's entry depends on its own connections and on the
-- cleanings, and the counter is that of the messages.
pub record IsAfter (config : P2PConfig) (state : P2PState) (steps : List Step) (last : P2PState)
    : Type 0 where
  pub peers :
      (id : String) → last.active_peers id ≡ seen_last config id (state.active_peers id) steps
  pub count : last.message_count ≡ state.message_count + messages steps

step_lem :
    (profile : Profile) (config : P2PConfig) (state : P2PState) (s : Step)
    → state.message_count + messages (s ∷ []) < u64_mod
    → (next : P2PState) × (step profile config state s ≡ some next)
      × ((id : String) → next.active_peers id ≡ seen_after config id (state.active_peers id) s)
      × (next.message_count ≡ state.message_count + messages (s ∷ []))
unfolding step handle_event clean
step_lem profile config state (Step.event (SwarmEvent.message j now)) b = (
  record state { message_count = state.message_count + 1; last_message_time = some now },
  (rw (add_u64-some profile state.message_count 1 b, step, handle_event) refl),
  (λ id. refl),
  refl,
)
step_lem profile config state (Step.event (SwarmEvent.established j now)) b =
    (_, refl, (λ id. refl), omega arith)
step_lem profile config state (Step.event (SwarmEvent.closed j)) b =
    (_, refl, (λ id. refl), omega arith)
step_lem profile config state (Step.event SwarmEvent.other) b = (_, refl, (λ id. refl), omega arith)
step_lem profile config state (Step.event SwarmEvent.exhausted) b =
    (_, refl, (λ id. refl), omega arith)
step_lem profile config state (Step.cleanup now) b = (_, refl, (λ id. refl), omega arith)

messages-cons :
    (s : Step) (steps : List Step) → messages (s ∷ steps) ≡ messages (s ∷ []) + messages steps
messages-cons (Step.event (SwarmEvent.message j now)) steps = omega arith
messages-cons (Step.event (SwarmEvent.established j now)) steps = omega arith
messages-cons (Step.event (SwarmEvent.closed j)) steps = omega arith
messages-cons (Step.event SwarmEvent.other) steps = omega arith
messages-cons (Step.event SwarmEvent.exhausted) steps = omega arith
messages-cons (Step.cleanup now) steps = omega arith

-- While the counter of messages fits, no steps of the two tasks panic; then a peer's entry is the time
-- of its own last connection, unless that was closed or cleaned since, and the counter has grown by
-- the messages.
pub run_lem :
    (profile : Profile) (config : P2PConfig) (state : P2PState) (steps : List Step)
    → state.message_count + messages steps < u64_mod
    → (last : P2PState) × (run profile config state steps ≡ some last)
      × IsAfter config state steps last
unfolding run
run_lem profile config state [] b =
    (state, refl, record { peers = λ id. refl; count = omega arith })
run_lem profile config state (s ∷ steps) b =
    let m = messages-cons s steps in
    let f = step_lem profile config state s (omega (arith, m)) in
    let r = run_lem profile config f.0 steps (omega (arith, m, f.3)) in
    (
      r.0,
      rw (f.1, run) r.1,
      record {
        peers = λ id. r.2.peers id ∙ ap (λ x. seen_last config id x steps) (f.2 id);
        count = omega (arith, m, f.3, r.2.count);
      },
    )

-- Steps in which a peer neither connects nor disconnects.
abbrev pub Quiet : String → List Step → Type 0
Quiet id [] = Unit
Quiet id (Step.event (SwarmEvent.established j now) ∷ steps) = ((j == id) ≡ false) × Quiet id steps
Quiet id (Step.event (SwarmEvent.closed j) ∷ steps) = ((j == id) ≡ false) × Quiet id steps
Quiet id (_ ∷ steps) = Quiet id steps

fresh-cases :
    (config : P2PConfig) (now t : ℕ)
    → (fresh config now (some t) ≡ some t) ⊎ (fresh config now (some t) ≡ none)
fresh-cases config now t = elim (Bool-cases (ltb (now - t) config.peer_timeout)) [
  | inl new ↦ inl (ground arith)
  | inr old ↦ inr (ground arith)
]

from_seen :
    (config : P2PConfig) (id : String) (seen next : Option ℕ) (s : Step) (steps : List Step)
    → seen_after config id seen s ≡ next
    → seen_last config id next steps ≡ none
    → seen_last config id seen (s ∷ steps) ≡ none
from_seen config id seen next s steps e h = ap (λ x. seen_last config id x steps) e ∙ h

seen_last-Quiet :
    (config : P2PConfig) (id : String) (seen : Option ℕ) (t now : ℕ) (steps : List Step)
    → (seen ≡ some t) ⊎ (seen ≡ none)
    → Quiet id steps
    → t + config.peer_timeout ≤ now
    → seen_last config id seen (steps ++ Step.cleanup now ∷ []) ≡ none
seen_last-Quiet config id seen t now [] (inl e) q h = rw e (ground arith)
seen_last-Quiet config id seen t now [] (inr e) q h = rw e refl
seen_last-Quiet config id seen t now (Step.event (SwarmEvent.message j time) ∷ steps) c q h =
    seen_last-Quiet config id seen t now steps c q h
seen_last-Quiet config id seen t now (Step.event (SwarmEvent.established j time) ∷ steps) c q h =
    from_seen config id seen seen (Step.event (SwarmEvent.established j time))
      (steps ++ Step.cleanup now ∷ []) (rw q.0 refl)
      (seen_last-Quiet config id seen t now steps c q.1 h)
seen_last-Quiet config id seen t now (Step.event (SwarmEvent.closed j) ∷ steps) c q h =
    from_seen config id seen seen (Step.event (SwarmEvent.closed j))
      (steps ++ Step.cleanup now ∷ []) (rw q.0 refl)
      (seen_last-Quiet config id seen t now steps c q.1 h)
seen_last-Quiet config id seen t now (Step.event SwarmEvent.other ∷ steps) c q h =
    seen_last-Quiet config id seen t now steps c q h
seen_last-Quiet config id seen t now (Step.event SwarmEvent.exhausted ∷ steps) c q h =
    seen_last-Quiet config id seen t now steps c q h
seen_last-Quiet config id seen t now (Step.cleanup time ∷ steps) (inl e) q h =
    seen_last-Quiet config id (fresh config time seen) t now steps
      (rw e (fresh-cases config time t)) q h
seen_last-Quiet config id seen t now (Step.cleanup time ∷ steps) (inr e) q h =
    seen_last-Quiet config id (fresh config time seen) t now steps (inr (rw e refl)) q h

-- A peer that connects and stays connected has no entry any more after a cleaning that runs a
-- time-out or more later, however many of its messages came in between.
pub connected_is_forgotten :
    (profile : Profile) (config : P2PConfig) (state : P2PState) (id : String) (t now : ℕ)
    (steps : List Step)
    → Quiet id steps
    → t + config.peer_timeout ≤ now
    → state.message_count + messages (steps ++ Step.cleanup now ∷ []) < u64_mod
    → (last : P2PState) × (run profile config state
          (Step.event (SwarmEvent.established id t) ∷ steps ++ Step.cleanup now ∷ [])
        ≡ some last)
      × (last.active_peers id ≡ none)
connected_is_forgotten profile config state id t now steps q h b =
    let r =
      run_lem profile config state
        (Step.event (SwarmEvent.established id t) ∷ steps ++ Step.cleanup now ∷ []) b in
    (
      r.0,
      r.1,
      r.2.peers id
          ∙ from_seen config id (state.active_peers id) (some t)
              (Step.event (SwarmEvent.established id t)) (steps ++ Step.cleanup now ∷ [])
              (rw (eq_refl id) refl)
              (seen_last-Quiet config id (some t) t now steps (inl refl) q h),
    )

-- A peer with two connections has no entry any more once one of them is closed.
two_connections_are_one :
    (profile : Profile) (config : P2PConfig) (state : P2PState) (id : String) (t u : ℕ)
    → state.message_count < u64_mod
    → (last : P2PState) × (run profile config state (
          Step.event (SwarmEvent.established id t)
          ∷ Step.event (SwarmEvent.established id u)
          ∷ Step.event (SwarmEvent.closed id)
          ∷ [])
        ≡ some last)
      × (last.active_peers id ≡ none)
two_connections_are_one profile config state id t u b =
    let r = run_lem profile config state _ (omega arith) in
    (r.0, r.1, r.2.peers id ∙ rw (eq_refl id) refl)
