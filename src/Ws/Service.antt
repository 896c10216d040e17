-- ===== src/Ws/Service.antt =====
-- The chat of src/ws.rs from its start on: its validator, from the environment, and its server, with
-- requests to connect, turns of running tasks and revoked tokens in any order.
use hancoin.Prelude.{
  ℕ, ◌≡◌, refl, sym, ap, ◌∙◌, ◌<◌, inl, inr, String, false, List, [], ◌∷◌, ◌++◌, Option, some,
  contains, nat_eq, All, Bool-cases,
}
use hancoin.Machine.{Profile}
use hancoin.Stores.{DashSet}
use hancoin.Ws.Token.{Decode, JwtValidator, validate_token, validate_token_exact, revoke_token}
use hancoin.Ws.Secrets.{revoke_all, IsSigned, validate_token-revoke_all}
use hancoin.Ws.Secrets
use hancoin.Ws.Socket.{max_connections, Event, Flow, Turn, handle_event}
use hancoin.Ws.Chat.{Server, Input, idle, apply, request, remove, runs, end_turn}
use hancoin.Ws.Chat.Gate.{apply-request}

pub data Act : Type 0 where
  asks : (param : Option String) (now : ℕ) → Act
  turns : (task : ℕ) (event : Event) → Act
  revokes : (token : String) → Act

-- What was revoked, where the last act stands first.
abbrev pub revoked : List Act → List String
revoked [] = []
revoked (revokes token ∷ past) = revoked past ++ token ∷ []
revoked (_ ∷ past) = revoked past

All-remove {ℓ} : (P : ℕ → Type ℓ) (ts : List ℕ) (task : ℕ) → All P ts → All P (remove ts task)
All-remove P [] task h = tt
All-remove P (t ∷ ts) task h = elim (Bool-cases (nat_eq t task)) [
  | inl found ↦ rw found h.1
  | inr other ↦ rw other (h.0, All-remove P ts task h.1)
]

All-flow {ℓ} :
    (P : ℕ → Type ℓ) (profile : Profile) (server : Server) (task : ℕ) (t : Turn) (flow : Flow)
    → t.flow ≡ flow
    → All P server.live
    → All P (end_turn profile server task t).live
unfolding end_turn
All-flow P profile server task t Flow.go_on e h = rw (e, end_turn) h
All-flow P profile server task t Flow.stop e h = rw (e, end_turn) (All-remove P server.live task h)
All-flow P profile server task t Flow.panic e h = rw (e, end_turn) (All-remove P server.live task h)

-- A turn starts no task.
All-turn {ℓ} :
    (P : ℕ → Type ℓ) (profile : Profile) (server : Server) (task : ℕ) (event : Event)
    → All P server.live
    → All P (apply profile server (Input.turn task event)).live
unfolding apply
All-turn P profile server task event h = elim (Bool-cases (runs server.live task)) [
  | inl runs_on ↦
      rw (runs_on, apply)
        (All-flow P profile server task (handle_event profile server.state event) _ refl h)
  | inr ended ↦ rw (ended, apply) h
]

revoke_all-snoc :
    (D : DashSet) (v : JwtValidator D) (tokens : List String) (token : String)
    → revoke_all D v (tokens ++ token ∷ []) ≡ revoke_token D (revoke_all D v tokens) token
unfolding revoke_all
revoke_all-snoc D v [] token = refl
revoke_all-snoc D v (t ∷ tokens) token = revoke_all-snoc D (revoke_token D v t) tokens token

module _ (D : DashSet) (decode : Decode) (profile : Profile)
    (current previous : Option String) where
  pub record Service : Type 0 where
    pub validator : JwtValidator D
    pub server : Server

  unfoldable pub step : Service → Act → Service
  step s (asks param now) = record s {
    server = apply profile s.server (request D decode s.validator param now);
  }
  step s (turns task event) = record s { server = apply profile s.server (Input.turn task event) }
  step s (revokes token) = record s { validator = revoke_token D s.validator token }

  -- The service after some acts, the last of which stands first.
  unfoldable pub after : List Act → Service
  after [] = record { validator = Secrets.new D current previous; server = idle }
  after (act ∷ past) = step (after past) act

  -- Why a task runs: its request had a token that a secret of the environment had signed and that
  -- was not revoked before, and there was room.
  pub record IsLetIn (acts : List Act) (task : ℕ) : Type 0 where
    pub later : List Act
    pub token : String
    pub now : ℕ
    pub before : List Act
    pub split : acts ≡ later ++ asks (some token) now ∷ before
    pub number : task ≡ (after before).server.started
    pub room : (after before).server.state.active_connections < max_connections
    pub signed : IsSigned D decode current previous token
    pub kept : contains (revoked before) token ≡ false

  -- What was revoked so far.
  validator-after :
      (past : List Act)
      → (after past).validator ≡ revoke_all D (Secrets.new D current previous) (revoked past)
  unfolding after step revoke_all
  validator-after [] = refl
  validator-after (asks param now ∷ past) = validator-after past
  validator-after (turns task event ∷ past) = validator-after past
  validator-after (revokes token ∷ past) =
      ap (λ v. revoke_token D v token) (validator-after past)
      ∙ sym (revoke_all-snoc D (Secrets.new D current previous) (revoked past) token)

  IsLetIn-cons :
      (act : Act) (past : List Act) (task : ℕ) → IsLetIn past task → IsLetIn (act ∷ past) task
  IsLetIn-cons act past task i = record {
    later = act ∷ i.later;
    token = i.token;
    now = i.now;
    before = i.before;
    split = ap (◌∷◌ act) i.split;
    number = i.number;
    room = i.room;
    signed = i.signed;
    kept = i.kept;
  }

  All-IsLetIn_cons :
      (act : Act) (past : List Act) (ts : List ℕ)
      → All (IsLetIn past) ts
      → All (IsLetIn (act ∷ past)) ts
  All-IsLetIn_cons act past [] h = tt
  All-IsLetIn_cons act past (t ∷ ts) h =
      (IsLetIn-cons act past t h.0, All-IsLetIn_cons act past ts h.1)

  asks-IsLetIn :
      (param : Option String) (now : ℕ) (past : List Act)
      → All (IsLetIn past) (after past).server.live
      → All (IsLetIn (asks param now ∷ past)) (after (asks param now ∷ past)).server.live
  unfolding after step
  asks-IsLetIn param now past h =
      let s : Service = after past in
      let rest = All-IsLetIn_cons (asks param now) past s.server.live h in
      elim (apply-request D decode profile s.validator param now s.server) [
        | inl same ↦ rw same rest
        | inr (token, named, good, room, started) ↦
            let accepted = (validate_token_exact D decode s.validator token).1 good in
            let x =
              (validate_token-revoke_all D decode current previous (revoked past) token).0 (
                ap (λ v. validate_token D decode v token) (sym (validator-after past))
                ∙ accepted) in
            rw started (
              record {
                later = [];
                token = token;
                now = now;
                before = past;
                split = ap (λ p. asks p now ∷ past) named;
                number = refl;
                room = room;
                signed = x.1;
                kept = x.0;
              },
              rest,
            )
      ]

  -- Whatever requests, turns and revocations have come since the start, each running task was started
  -- by one of the requests, with a token that a secret of the environment decodes to claims of the
  -- server on a user, and that was not revoked before the request, and while less than 1000 others
  -- were counted.
  pub tasks-IsLetIn : (acts : List Act) → All (IsLetIn acts) (after acts).server.live
  unfolding after step
  tasks-IsLetIn [] = tt
  tasks-IsLetIn (asks param now ∷ past) = asks-IsLetIn param now past (tasks-IsLetIn past)
  tasks-IsLetIn (turns task event ∷ past) =
      All-turn (IsLetIn (turns task event ∷ past)) profile (after past).server task event
        (All-IsLetIn_cons (turns task event) past (after past).server.live (tasks-IsLetIn past))
  tasks-IsLetIn (revokes token ∷ past) =
      All-IsLetIn_cons (revokes token) past (after past).server.live (tasks-IsLetIn past)
