-- ===== src/Examples/Chat.antt =====
-- The WebSocket chat of src/ws.rs at concrete inputs.
use hancoin.Prelude.{
  All, ℕ, ◌++◌, ◌+◌, ◌≡◌, refl, ◌↔◌, true, false, List, [], ◌∷◌, Option, none, some, contains,
  arith, if◌then◌else◌,
}
use hancoin.Machine.{Profile}
use hancoin.Account.{codes}
use hancoin.Text.{Text, trim, trim_start, trim_end, split, is_whitespace}
use hancoin.Ws.Token.{
  Claims, Decode, JwtValidator, try_validate, try_previous, validate_token, revoke_token,
}
use hancoin.Ws.Secrets.{new, parse_secrets, revoke_all, IsSigned, validate_token-revoke_all}
use hancoin.Ws.Socket.{enter, Flow, default, Event, Content}
use hancoin.Ws.Chat.{echoes, request, apply, arrived, idle, Input, apply_all, IsCounted}
use hancoin.Ws.Service.{Act, asks, revokes, step, after, IsLetIn, tasks-IsLetIn}
use hancoin.Ws.Chat.Counts.{apply_all-idle-IsCounted}
use hancoin.Ws.Alone.{handle_ws, handle_ws_ends}
use hancoin.Examples.Instances.{list_set, same}

abbrev alice : Claims
alice = record {
  iss = "hancoin-server";
  sub = "user-alice";
  exp = 100;
  iat = 1;
  jti = "1";
  roles = [];
}

-- Tokens are signed with the secret "old".
abbrev signed_by : Text → Option Claims
signed_by secret = if same secret (codes "old") then some alice else none

abbrev pub decode : Decode
decode token secret = signed_by secret

abbrev pub validator : JwtValidator list_set
validator = record {
  current_secret = codes "new";
  previous_secrets = codes "old" ∷ [];
  revoked_tokens = [];
  allowed_issuers = "hancoin-server" ∷ [];
}

-- Spaces round a secret and empty entries are dropped.
loose_list : parse_secrets (codes " a, ,b") ≡ codes "a" ∷ codes "b" ∷ []
unfolding parse_secrets trim trim_start trim_end split is_whitespace
loose_list = refl

old_secret : validate_token list_set decode validator "token" ≡ true
unfolding validate_token try_validate try_previous
old_secret = refl

revoked : validate_token list_set decode (revoke_token list_set validator "token") "token" ≡ false
unfolding validate_token try_validate try_previous revoke_token
revoked = refl

validate_token-revoke_all_example :
    (validate_token list_set decode
        (revoke_all list_set (new list_set (some "new") (some "a,old")) ("other" ∷ []))
        "token"
      ≡ true)
    ↔ ((contains ("other" ∷ []) "token" ≡ false)
        × IsSigned list_set decode (some "new") (some "a,old") "token")
validate_token-revoke_all_example =
    validate_token-revoke_all list_set decode (some "new") (some "a,old") ("other" ∷ []) "token"

-- One connection says hello, a second one comes, and the first one closes.
abbrev visits : List Input
visits =
    Input.arrive true 1
    ∷ Input.turn 0
        (Event.received (record { content = Content.text (codes "hello"); size = 5 }) false true)
    ∷ Input.arrive true 2
    ∷ Input.turn 0 (Event.received (record { content = Content.close; size = 0 }) false true)
    ∷ []

apply_all-idle-IsCounted_example : IsCounted 4 (apply_all Profile.release idle visits)
apply_all-idle-IsCounted_example = apply_all-idle-IsCounted Profile.release visits (omega arith)

-- A token lets somebody in and is revoked, the last act first; the next request with it is refused.
abbrev acts : List Act
acts = asks (some "token") 3 ∷ revokes "token" ∷ asks (some "token") 1 ∷ []

one_task :
    (after list_set decode Profile.release (some "new") (some "a,old") acts).server.live ≡ 0 ∷ []
unfolding after step new apply arrived enter request validate_token try_validate try_previous
    revoke_token parse_secrets trim trim_start trim_end split is_whitespace
one_task = refl

tasks-IsLetIn_example :
    All
      (IsLetIn list_set decode Profile.release (some "new") (some "a,old") acts)
      (after list_set decode Profile.release (some "new") (some "a,old") acts).server.live
tasks-IsLetIn_example =
    tasks-IsLetIn list_set decode Profile.release (some "new") (some "a,old") acts

-- A connection that says hello twice, the second time in too long a message, and is then cut.
abbrev hello : ℕ → Event
hello size =
    Event.received (record { content = Content.text (codes "hello"); size = size }) false true

handle_ws_ends_example :
    let r = handle_ws Profile.debug default 1 ((hello 5 ∷ hello 2000 ∷ []) ++ Event.ended ∷ []) in
    (r.flow ≡ Flow.stop)
    × (r.state.active_connections ≡ 0)
    × (r.state.message_count ≡ 0 + echoes r.frames)
handle_ws_ends_example =
    handle_ws_ends Profile.debug default 1 (hello 5 ∷ hello 2000 ∷ []) [] (omega arith)
      (omega arith)
