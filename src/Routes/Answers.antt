-- ===== src/Routes/Answers.antt =====
-- What the server of src/main.rs does with each request.
use hancoin.Prelude.{
  ℕ, ◌≡◌, refl, ap, ◌∙◌, String, List, [], ◌∷◌, Option, none, some, arith, ◌==◌, if◌then◌else◌,
}
use hancoin.Stores.{DashSet}
use hancoin.Ws.Token.{Decode, JwtValidator}
use hancoin.Ws.Chat.{Input, request}
use hancoin.Replies.{Rejections, handle_rejection}
use hancoin.Routes.{Request, Filters, Call, Ran}
use hancoin.Routes.Endpoints.{called, map_ran, attempt, by_path}
use hancoin.Routes.Each.{called-or}
use hancoin.Routes.Dispatch.{called-api_routes_exact}
use hancoin.Routes.Outcomes.{outcome, taken, in_turn, in_order, then_take-map}
use hancoin.Routes.Server.{Served, fails, get, Wrapping, chat_routes, tried}

-- The value that the last parameter of a name has, or `found` if none has the name.
abbrev pub last_value : Option String → List (String × String) → String → Option String
last_value found [] name = found
last_value found ((n, value) ∷ params) name =
    last_value (if n == name then some value else found) params name

or_else : Option String → Option String → Option String
or_else (some a) found = some a
or_else none found = found

last_value-get :
    (found : Option String) (params : List (String × String)) (name : String)
    → last_value found params name ≡ or_else (get params name) found
unfolding get or_else
last_value-get found [] name = refl
last_value-get found ((n, value) ∷ params) name =
    ground (arith, last_value-get (if n == name then some value else found) params name)

get-last_value :
    (params : List (String × String)) (name : String)
    → get params name ≡ last_value none params name
unfolding or_else
get-last_value params name = ground (arith, last_value-get none params name)

module _ {Value S E : Type 0} (W : Filters Value S E) (D : DashSet) (decode : Decode)
    (v : JwtValidator D) (now : ℕ) (r : Request Value) where
  -- A GET of a path that starts with "ws", with the headers for it, is a try to open a WebSocket, with
  -- the last token of the query.
  abbrev pub upgrade_to : List String → Option Input
  upgrade_to [] = none
  upgrade_to (s ∷ rest) =
      if s == "ws"
      then if r.method == "GET"
        then if r.upgrade
          then some (request D decode v (last_value none r.query "token") now)
          else none
        else none
      else none

  called-map :
      {A C : Type 0} (h : A → C) (f : W.Filter A) (w : S) (path : List String)
      → called (W.run C (W.map A C h f) r w path) ≡ map_ran h (called (W.run A f r w path))
  called-map {A} {C} h f w path =
      ap called (W.run_map A C h f r w path) ∙ then_take-map h (W.run A f r w path)

  called-chat_routes :
      (w : S) (path : List String)
      → called (W.run _ (chat_routes W D decode v now) r w path) ≡ taken (upgrade_to path) w
  unfolding chat_routes
  called-chat_routes w [] = ground (
    arith,
    W.run_map _ Input (λ a. request D decode v (get a.0.1 "token") now)
        (W.and _ _ (W.and _ _ (W.path "ws") W.query) W.ws) r w [],
    W.run_and _ _ (W.and _ _ (W.path "ws") W.query) W.ws r w [],
    W.run_and _ _ (W.path "ws") W.query r w [],
    W.run_path_nil "ws" r w,
  )
  called-chat_routes w (s ∷ rest) = ground (
    arith,
    W.run_map _ Input (λ a. request D decode v (get a.0.1 "token") now)
        (W.and _ _ (W.and _ _ (W.path "ws") W.query) W.ws) r w (s ∷ rest),
    W.run_and _ _ (W.and _ _ (W.path "ws") W.query) W.ws r w (s ∷ rest),
    W.run_and _ _ (W.path "ws") W.query r w (s ∷ rest),
    W.run_path "ws" r w s rest,
    W.run_query r w rest,
    W.run_ws r w rest,
    get-last_value r.query "token",
  )

  module _ {Reply B : Type 0} (perform : Call Value → S → Ran S E Reply) where
    pub called-tried :
        (coinjoin_routes : W.Filter B) (w : S) (path : List String)
        → called (W.run _ (tried W D decode v now perform coinjoin_routes) r w path)
          ≡ in_turn
              (upgrade_to path)
              (attempt perform (by_path r path) w)
              (λ u. called (W.run _ coinjoin_routes r u path))
              w
    unfolding tried
    called-tried coinjoin_routes w path =
        simp (called-or W r, called-map, called-chat_routes, called-api_routes_exact W perform r)
          (in_order (upgrade_to path) (attempt perform (by_path r path)) _ w)

    module _ (R : Rejections) (wrapping : Wrapping W R) (coinjoin_routes : W.Filter B) where
      -- The rejection that a request gets if nothing takes it.
      abbrev pub rejection : S → List String → R.Rejection
      rejection w path =
          wrapping.rejected _
            (wrapping.with_cors _ (tried W D decode v now perform coinjoin_routes)) r w path

      abbrev pub served_by : S → List String → Ran S E (Served Reply B)
      served_by w path =
          outcome (fails (handle_rejection R (rejection w path))) (upgrade_to path)
            (attempt perform (by_path r path) w) (λ u. called (W.run _ coinjoin_routes r u path)) w
