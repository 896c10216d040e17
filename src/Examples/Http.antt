-- ===== src/Examples/Http.antt =====
-- Routes and replies of src/main.rs and src/error.rs at concrete inputs.
use hancoin.Prelude.{
  ℕ, ◌+◌, ◌≡◌, ◌≤◌, ◌<◌, refl, String, true, false, List, [], ◌∷◌, none, some, ◌==◌, if◌then◌else◌,
}
use hancoin.Account.{codes}
use hancoin.Replies.{
  HancoinError, session_not_found, account_not_found, faucet_cooldown_not_over, Rejections,
  handle_rejection, status_code, to_string, cause, read_message, read_message-handle_rejection,
}
use hancoin.Routes.{Request, Ran, answered, refused, Call, handle_balance, api_routes}
use hancoin.Routes.Server.{upgrades, fails, chat_routes, tried}
use hancoin.Routes.Answers.{served_by}
use hancoin.Ws.Token.{validate_token, try_validate, try_previous}
use hancoin.Ws.Chat.{Input, request}
use hancoin.Examples.Hex.{Body}
use hancoin.Examples.Instances.{list_set}
use hancoin.Examples.Chat.{decode, validator}
use hancoin.Routes.Endpoints.{called}
use hancoin.Examples.Filters.{functions, rejections, wrapping, no_coinjoin}

abbrev pub bare : String → List String → Request Body
bare method path = record { method = method; path = path; body = none; query = []; upgrade = false }

-- The handlers count their calls, and know one account.
abbrev performs : Call Body → ℕ → Ran ℕ HancoinError (Unit {0})
performs (handle_balance id) n =
    if id == "ann" then answered tt (n + 1) else refused (some account_not_found) (n + 1)
performs c n = answered tt (n + 1)

-- What follows the name of an account is not looked at.
longer_path :
    called (
      (functions ℕ HancoinError).run _
        (api_routes (functions ℕ HancoinError) performs)
        (bare "GET" [])
        0
        ("v1" ∷ "balance" ∷ "ann" ∷ "more" ∷ []))
    ≡ answered tt 1
unfolding api_routes
longer_path = refl

-- An account needs a name.
no_name :
    called (
      (functions ℕ HancoinError).run _
        (api_routes (functions ℕ HancoinError) performs)
        (bare "GET" [])
        0
        ("v1" ∷ "balance" ∷ "" ∷ []))
    ≡ refused none 0
unfolding api_routes
no_name = refl

-- Rejections that are errors of the program.
abbrev pub errors : Rejections
errors = record {
  Rejection = HancoinError;
  find = λ e. some e;
  is_not_found = λ e. false;
  is_body_error = λ e. false;
  is_method_not_allowed = λ e. false;
}

early_claim : (handle_rejection errors faucet_cooldown_not_over).code ≡ 500
unfolding handle_rejection status_code
early_claim = refl

read_message-handle_rejection_example :
    (read_message (handle_rejection errors (session_not_found (codes "id"))).message
      ≡ cause errors (session_not_found (codes "id")))
    × (400 ≤ (handle_rejection errors (session_not_found (codes "id"))).code)
    × ((handle_rejection errors (session_not_found (codes "id"))).code < 600)
read_message-handle_rejection_example =
    read_message-handle_rejection errors (session_not_found (codes "id"))

abbrev pub opening : Request Body
opening = record {
  method = "GET";
  path = "ws" ∷ [];
  body = none;
  query = ("token", "other") ∷ ("token", "token") ∷ [];
  upgrade = true;
}

-- The last token of a query counts, and one that an old secret decodes is let in.
let_in :
    served_by
      (functions ℕ HancoinError)
      list_set
      decode
      validator
      7
      opening
      performs
      (rejections ℕ HancoinError some)
      (wrapping ℕ HancoinError some)
      (no_coinjoin ℕ HancoinError)
      0
      opening.path
    ≡ answered (upgrades (Input.arrive true 7)) 0
unfolding request validate_token try_validate try_previous
let_in = refl

abbrev unknown_balance : Request Body
unknown_balance = bare "GET" ("v1" ∷ "balance" ∷ "bob" ∷ [])

-- A handler's error comes to the reply, after the CoinJoin routes were tried.
error_reply :
    served_by
      (functions ℕ HancoinError)
      list_set
      decode
      validator
      7
      unknown_balance
      performs
      (rejections ℕ HancoinError some)
      (wrapping ℕ HancoinError some)
      (no_coinjoin ℕ HancoinError)
      0
      unknown_balance.path
    ≡ answered
        (fails (record { code = 404; status = "error"; message = codes "Account not found" }))
        1
unfolding handle_rejection status_code to_string tried chat_routes api_routes
error_reply = refl
