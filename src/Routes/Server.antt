-- ===== src/Routes/Server.antt =====
-- The routes that `main` of src/main.rs serves: those of the chat of src/ws.rs, of the interface and
-- of the CoinJoin sessions, tried in this order, with `handle_rejection` of src/error.rs for a request
-- that all of them reject. `create_coinjoin_routes` is not in the source; its filter is an argument.
use hancoin.Prelude.{
  ℕ, ◌≡◌, ◌⊎◌, String, List, [], ◌∷◌, Option, none, some, ◌==◌, if◌then◌else◌, true, false,
}
use hancoin.Stores.{DashSet}
use hancoin.Ws.Token.{Decode, JwtValidator}
use hancoin.Ws.Chat.{Input, request}
use hancoin.Replies.{Rejections, ErrorReply, handle_rejection}
use hancoin.Routes.{Request, Filters, Call, Ran, takes, rejects, panics, api_routes}
use hancoin.Routes.Endpoints.{called, state_of}

-- What a request is answered with: a try to open a WebSocket, the reply of a handler, that of the
-- CoinJoin routes, or an error reply.
pub data Served (Reply B : Type 0) : Type 0 where
  upgrades : Input → Served Reply B
  replies : Reply → Served Reply B
  coinjoin : B → Served Reply B
  fails : ErrorReply → Served Reply B

-- `HashMap::get` on the parameters of a query, where the last of several with one name counts.
unfoldable pub get : List (String × String) → String → Option String
get [] name = none
get ((n, value) ∷ params) name = elim (get params name) [
  | some later ↦ some later
  | none ↦ if n == name then some value else none
]

-- What warp documents of `with` of `cors`, with all origins allowed, and of `recover`: only requests
-- of the method OPTIONS are answered or rejected by the first itself, and other answers get headers; a
-- request that is rejected gets the answer of the second's function to its rejection, the others pass.
-- `rejected` is the rejection that the filters give to a request, and `find` is what its `find` finds
-- of the errors of the handlers, the first that it holds.
pub record Wrapping {Value S E : Type 0} (W : Filters Value S E) (R : Rejections) : Type 1 where
  pub with_cors : (A : Type 0) → W.Filter A → W.Filter A
  pub run_with_cors :
      (A : Type 0) (f : W.Filter A) (r : Request Value) (w : S) (path : List String)
      → (r.method == "OPTIONS") ≡ false
      → W.run A (with_cors A f) r w path ≡ W.run A f r w path
  pub run_with_cors_options :
      (A : Type 0) (f : W.Filter A) (r : Request Value) (w : S) (path : List String)
      → (r.method == "OPTIONS") ≡ true
      → (W.run A (with_cors A f) r w path ≡ W.run A f r w path)
        ⊎ (state_of (called (W.run A (with_cors A f) r w path)) ≡ w)
  pub rejected : (A : Type 0) → W.Filter A → Request Value → S → List String → R.Rejection
  pub find : R.Rejection → Option E
  pub find-rejected :
      (A : Type 0) (f : W.Filter A) (r : Request Value) (w : S) (path : List String) (e : Option E)
      (u : S)
      → W.run A f r w path ≡ rejects e u
      → find (rejected A f r w path) ≡ e
  pub recover : (A : Type 0) → (R.Rejection → A) → W.Filter A → W.Filter A
  pub run_recover :
      (A : Type 0) (h : R.Rejection → A) (f : W.Filter A) (r : Request Value) (w : S)
      (path : List String)
      → W.run A (recover A h f) r w path ≡ (elim (W.run A f r w path) [
        | takes a rest u ↦ takes a rest u
        | rejects e u ↦ takes (h (rejected A f r w path)) path u
        | panics u ↦ panics u
      ])

module _ {Value S E : Type 0} (W : Filters Value S E) (D : DashSet) (decode : Decode)
    (v : JwtValidator D) (now : ℕ) where
  -- `now` is the time of the request.
  unfoldable pub chat_routes : W.Filter Input
  chat_routes =
      W.map _ _ (λ a. request D decode v (get a.0.1 "token") now)
        (W.and _ _ (W.and _ _ (W.path "ws") W.query) W.ws)

  module _ {Reply B : Type 0} (perform : Call Value → S → Ran S E Reply) where
    unfoldable pub tried : W.Filter B → W.Filter (Served Reply B)
    tried coinjoin_routes =
        W.or _ (W.or _ (W.map _ _ upgrades chat_routes) (W.map _ _ replies (api_routes W perform)))
          (W.map _ _ coinjoin coinjoin_routes)

    unfoldable pub routes : (R : Rejections) → Wrapping W R → W.Filter B → W.Filter (Served Reply B)
    routes R wrapping coinjoin_routes =
        wrapping.recover _ (λ err. fails (handle_rejection R err))
          (wrapping.with_cors _ (tried coinjoin_routes))
