-- ===== src/Replies.antt =====
-- src/error.rs: its `HancoinError`, and the reply that `handle_rejection` gives for a rejection. What a
-- rejection holds is asked of the crate warp.
use hancoin.Prelude.{
  ℕ, ◌≡◌, ◌≤◌, ◌<◌, refl, String, Bool, true, false, List, [], ◌∷◌, ◌++◌, Option, none, some, arith,
  nat_eq, if◌then◌else◌, Option-cases, Bool-cases, inl, inr,
}
use hancoin.Account.{codes}
use hancoin.Text.{Text}

pub data HancoinError : Type 0 where
  missing_field invalid_format session_not_found : Text → HancoinError
  account_not_found rate_limit_exceeded system_time_error faucet_cooldown_not_over : HancoinError
  total_supply_limit_reached invalid_transaction invalid_signature internal_server_error :
      HancoinError

-- The messages of `derive(Error)`.
unfoldable pub to_string : HancoinError → Text
to_string (missing_field field) = codes "Missing field: " ++ field
to_string (invalid_format what) = codes "Invalid format: " ++ what
to_string account_not_found = codes "Account not found"
to_string (session_not_found id) = codes "Session not found: " ++ id
to_string rate_limit_exceeded = codes "Rate limit exceeded"
to_string system_time_error = codes "System time error"
to_string faucet_cooldown_not_over = codes "Faucet cooldown period not over"
to_string total_supply_limit_reached = codes "Total supply limit reached"
to_string invalid_transaction = codes "Invalid transaction"
to_string invalid_signature = codes "Invalid signature"
to_string internal_server_error = codes "Internal server error"

unfoldable pub status_code : HancoinError → ℕ
status_code (missing_field field) = 400
status_code (invalid_format what) = 400
status_code invalid_transaction = 400
status_code invalid_signature = 400
status_code account_not_found = 404
status_code (session_not_found id) = 404
status_code rate_limit_exceeded = 429
status_code system_time_error = 500
status_code faucet_cooldown_not_over = 500
status_code total_supply_limit_reached = 500
status_code internal_server_error = 500

-- What `warp::Rejection` tells: the error of this program in it, if any, and whether it is one of
-- warp's own.
pub record Rejections : Type 1 where
  pub Rejection : Type 0
  pub find : Rejection → Option HancoinError
  pub is_not_found : Rejection → Bool
  pub is_body_error : Rejection → Bool
  pub is_method_not_allowed : Rejection → Bool

pub record ErrorReply : Type 0 where
  pub code : ℕ
  pub status : String
  pub message : Text

abbrev error_reply : ℕ → Text → ErrorReply
error_reply code message = record { code = code; status = "error"; message = message }

unfoldable pub handle_rejection : (R : Rejections) → R.Rejection → ErrorReply
handle_rejection R err = elim (R.find err) [
  | some e ↦ error_reply (status_code e) (to_string e)
  | none ↦
      if R.is_not_found err
      then error_reply 404 (codes "Not Found")
      else if R.is_body_error err
      then error_reply 400 (codes "Invalid JSON data")
      else if R.is_method_not_allowed err
      then error_reply 405 (codes "Method not allowed")
      else error_reply 500 (codes "Internal Server Error")
]

-- Why a request failed.
pub data Cause : Type 0 where
  program_error : HancoinError → Cause
  no_route bad_body bad_method unknown : Cause

unfoldable pub cause : (R : Rejections) → R.Rejection → Cause
cause R err = elim (R.find err) [
  | some e ↦ program_error e
  | none ↦
      if R.is_not_found err
      then no_route
      else if R.is_body_error err
      then bad_body
      else if R.is_method_not_allowed err
      then bad_method
      else unknown
]

-- The text after a prefix.
strip : Text → Text → Option Text
strip [] s = some s
strip (p ∷ ps) [] = none
strip (p ∷ ps) (c ∷ s) = if nat_eq p c then strip ps s else none

-- The fixed messages, with their causes.
abbrev fixed_messages : List (Text × Cause)
fixed_messages =
    (codes "Account not found", program_error account_not_found)
    ∷ (codes "Rate limit exceeded", program_error rate_limit_exceeded)
    ∷ (codes "System time error", program_error system_time_error)
    ∷ (codes "Faucet cooldown period not over", program_error faucet_cooldown_not_over)
    ∷ (codes "Total supply limit reached", program_error total_supply_limit_reached)
    ∷ (codes "Invalid transaction", program_error invalid_transaction)
    ∷ (codes "Invalid signature", program_error invalid_signature)
    ∷ (codes "Internal server error", program_error internal_server_error)
    ∷ (codes "Not Found", no_route)
    ∷ (codes "Invalid JSON data", bad_body)
    ∷ (codes "Method not allowed", bad_method)
    ∷ []

same : Text → Text → Bool
same [] [] = true
same (c ∷ s) (d ∷ t) = if nat_eq c d then same s t else false
same _ _ = false

find_message : List (Text × Cause) → Text → Cause
find_message [] s = unknown
find_message ((t, c) ∷ ts) s = if same t s then c else find_message ts s

-- The cause that a message tells.
pub read_message : Text → Cause
read_message s = elim (strip (codes "Missing field: ") s) [
  | some field ↦ program_error (missing_field field)
  | none ↦ elim (strip (codes "Invalid format: ") s) [
    | some what ↦ program_error (invalid_format what)
    | none ↦ elim (strip (codes "Session not found: ") s) [
      | some id ↦ program_error (session_not_found id)
      | none ↦ find_message fixed_messages s
    ]
  ]
]

read_message-to_string : (e : HancoinError) → read_message (to_string e) ≡ program_error e
unfolding read_message to_string strip find_message same
read_message-to_string (missing_field field) = refl
read_message-to_string (invalid_format what) = refl
read_message-to_string (session_not_found id) = refl
read_message-to_string account_not_found = refl
read_message-to_string rate_limit_exceeded = refl
read_message-to_string system_time_error = refl
read_message-to_string faucet_cooldown_not_over = refl
read_message-to_string total_supply_limit_reached = refl
read_message-to_string invalid_transaction = refl
read_message-to_string invalid_signature = refl
read_message-to_string internal_server_error = refl

code-status_code : (e : HancoinError) → (400 ≤ status_code e) × (status_code e < 600)
unfolding status_code
code-status_code e = ground arith

-- The reply to a rejection has a code from 400 to 599, and its message tells the cause of the
-- rejection, with the name that the cause holds.
pub read_message-handle_rejection :
    (R : Rejections) (err : R.Rejection)
    → (read_message (handle_rejection R err).message ≡ cause R err)
      × (400 ≤ (handle_rejection R err).code)
      × ((handle_rejection R err).code < 600)
unfolding handle_rejection cause read_message strip find_message same
read_message-handle_rejection R err = elim (Option-cases (R.find err)) [
  | inr (e, found) ↦
      rw (found, handle_rejection, cause)
        (read_message-to_string e, (code-status_code e).0, (code-status_code e).1)
  | inl other ↦ elim (Bool-cases (R.is_not_found err)) [
    | inl a ↦ rw (other, a, handle_rejection, cause) (refl, omega arith, omega arith)
    | inr a ↦ elim (Bool-cases (R.is_body_error err)) [
      | inl b ↦ rw (other, a, b, handle_rejection, cause) (refl, omega arith, omega arith)
      | inr b ↦ elim (Bool-cases (R.is_method_not_allowed err)) [
        | inl c ↦ rw (other, a, b, c, handle_rejection, cause) (refl, omega arith, omega arith)
        | inr c ↦ rw (other, a, b, c, handle_rejection, cause) (refl, omega arith, omega arith)
      ]
    ]
  ]
]
