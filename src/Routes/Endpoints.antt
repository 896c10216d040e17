-- ===== src/Routes/Endpoints.antt =====
-- The handlers of src/main.rs by the paths and the methods of requests.
use hancoin.Prelude.{String, List, [], ◌∷◌, Option, none, some, ◌==◌, if◌then◌else◌}
use hancoin.Routes.{
  Request, Call, handle_faucet, handle_transfer, handle_post_moment, handle_balance,
  handle_transactions, handle_get_moments, handle_status, api_version, Took, takes, rejects, panics,
  Ran, answered, refused, broken, first,
}

abbrev pub or_call {ℓ} : {A : Type ℓ} → Option A → Option A → Option A
or_call none c = c
or_call (some a) c = some a

module _ {S E : Type 0} where
  -- What a filter came to, without what it left of the path.
  abbrev pub called : {A : Type 0} → Took S E A → Ran S E A
  called (takes a rest s) = answered a s
  called (rejects e s) = refused e s
  called (panics s) = broken s

  abbrev pub state_of : {A : Type 0} → Ran S E A → S
  state_of (answered a s) = s
  state_of (refused e s) = s
  state_of (broken s) = s

  abbrev pub after_refusal : {A : Type 0} → Option E → Ran S E A → Ran S E A
  after_refusal e (answered a s) = answered a s
  after_refusal e (refused later s) = refused (first e later) s
  after_refusal e (broken s) = broken s

  abbrev pub or_ran : {A : Type 0} → Ran S E A → (S → Ran S E A) → Ran S E A
  or_ran (answered a s) g = answered a s
  or_ran (refused e s) g = after_refusal e (g s)
  or_ran (broken s) g = broken s

  abbrev pub then_ran : {A B : Type 0} → Ran S E A → (A → S → Ran S E B) → Ran S E B
  then_ran (answered a s) h = h a s
  then_ran (refused e s) h = refused e s
  then_ran (broken s) h = broken s

  abbrev pub map_ran : {A B : Type 0} → (A → B) → Ran S E A → Ran S E B
  map_ran h (answered a s) = answered (h a) s
  map_ran h (refused e s) = refused e s
  map_ran h (broken s) = broken s

  -- A call, if there is one.
  abbrev pub attempt : {C B : Type 0} → (C → S → Ran S E B) → Option C → S → Ran S E B
  attempt perform none s = refused none s
  attempt perform (some c) s = perform c s

module _ {Value : Type 0} where
  -- A call with the body of a POST.
  abbrev pub with_body : Request Value → (Value → Call Value) → Option (Call Value)
  with_body r handler =
      if r.method == "POST" then elim r.body [ none ↦ none | some v ↦ some (handler v) ] else none

  -- A call with the next segment, which is not empty, of a GET.
  abbrev pub with_name : Request Value → (String → Call Value) → List String → Option (Call Value)
  with_name r handler [] = none
  with_name r handler (t ∷ rest) =
      if t == "" then none else if r.method == "GET" then some (handler t) else none

  -- The handler by the second segment of the path.
  abbrev pub endpoint : Request Value → String → List String → Option (Call Value)
  endpoint r name rest =
      if name == "faucet"
      then with_body r handle_faucet
      else if name == "balance"
      then with_name r handle_balance rest
      else if name == "transfer"
      then with_body r handle_transfer
      else if name == "transactions"
      then with_name r handle_transactions rest
      else if name == "moments"
      then or_call (with_body r handle_post_moment)
          (if r.method == "GET" then some (handle_get_moments r.query) else none)
      else if name == "status"
      then (if r.method == "GET" then some handle_status else none)
      else none

  abbrev pub by_path : Request Value → List String → Option (Call Value)
  by_path r [] = none
  by_path r (v ∷ []) = none
  by_path r (v ∷ name ∷ rest) = if v == api_version then endpoint r name rest else none
