-- ===== src/Routes.antt =====
-- `create_api_routes` of src/main.rs: which handler a request goes to. The filters are the crate
-- warp's.
pub mod Endpoints
pub mod Each
pub mod Order
pub mod Short
pub mod Dispatch
pub mod Server
pub mod Outcomes
pub mod Answers
use hancoin.Prelude.{◌≡◌, String, Bool, List, [], ◌∷◌, Option, none, some, ◌==◌, if◌then◌else◌}

-- What the filters look at: the path is cut at its slashes, and `body` is the JSON of the body, if it
-- is some; `upgrade` tells whether the headers ask for a WebSocket.
pub record Request (Value : Type 0) : Type 0 where
  pub method : String
  pub path : List String
  pub body : Option Value
  pub query : List (String × String)
  pub upgrade : Bool

-- What a filter comes to: it takes what it wants from the front of the path, or it rejects the request,
-- or a handler in it panics. The state is what the handlers share. A rejection is told by the first
-- error of type E that it holds, if it holds one.
pub data Took (S E A : Type 0) : Type 0 where
  takes : A → List String → S → Took S E A
  rejects : Option E → S → Took S E A
  panics : S → Took S E A

-- What a handler comes to.
pub data Ran (S E A : Type 0) : Type 0 where
  answered : A → S → Ran S E A
  refused : Option E → S → Ran S E A
  broken : S → Ran S E A

-- The first error of two rejections.
abbrev pub first {ℓ} : {E : Type ℓ} → Option E → Option E → Option E
first none e = e
first (some e) _ = some e

module _ {S E : Type 0} where
  abbrev pub then_take :
      {A B : Type 0} → Took S E A → (A → List String → S → Took S E B) → Took S E B
  then_take (takes a rest s) f = f a rest s
  then_take (rejects e s) f = rejects e s
  then_take (panics s) f = panics s

  abbrev pub after_reject : {A : Type 0} → Option E → Took S E A → Took S E A
  after_reject e (takes a rest s) = takes a rest s
  after_reject e (rejects later s) = rejects (first e later) s
  after_reject e (panics s) = panics s

  abbrev pub or_take : {A : Type 0} → Took S E A → (S → Took S E A) → Took S E A
  or_take (takes a rest s) g = takes a rest s
  or_take (rejects e s) g = after_reject e (g s)
  or_take (panics s) g = panics s

  abbrev pub resume : {A : Type 0} → List String → Ran S E A → Took S E A
  resume rest (answered a s) = takes a rest s
  resume rest (refused e s) = rejects e s
  resume rest (broken s) = panics s

-- What warp documents of the filters that the program builds its routes from. `path` matches one
-- segment of the path, `param` takes one that is not empty; neither asks that the path ends there.
-- `and_then` calls a handler, whose error is a rejection; `or` tries its second filter, on the whole
-- path, after a rejection of the first, whatever that came from.
pub record Filters (Value S E : Type 0) : Type 1 where
  pub Filter : Type 0 → Type 0
  pub run : (A : Type 0) → Filter A → Request Value → S → List String → Took S E A
  pub path : String → Filter (Unit {0})
  pub param : Filter String
  pub get : Filter (Unit {0})
  pub post : Filter (Unit {0})
  pub json : Filter Value
  pub query : Filter (List (String × String))
  pub ws : Filter (Unit {0})
  pub and : (A B : Type 0) → Filter A → Filter B → Filter (A × B)
  pub or : (A : Type 0) → Filter A → Filter A → Filter A
  pub map : (A B : Type 0) → (A → B) → Filter A → Filter B
  pub and_then : (A B : Type 0) → (A → S → Ran S E B) → Filter A → Filter B
  pub run_path_nil :
      (s : String) (r : Request Value) (w : S) → run (Unit {0}) (path s) r w [] ≡ rejects none w
  pub run_path :
      (s : String) (r : Request Value) (w : S) (t : String) (rest : List String)
      → run (Unit {0}) (path s) r w (t ∷ rest)
        ≡ (if t == s then takes tt rest w else rejects none w)
  pub run_param_nil : (r : Request Value) (w : S) → run String param r w [] ≡ rejects none w
  pub run_param :
      (r : Request Value) (w : S) (t : String) (rest : List String)
      → run String param r w (t ∷ rest) ≡ (if t == "" then rejects none w else takes t rest w)
  pub run_get :
      (r : Request Value) (w : S) (rest : List String)
      → run (Unit {0}) get r w rest
        ≡ (if r.method == "GET" then takes tt rest w else rejects none w)
  pub run_post :
      (r : Request Value) (w : S) (rest : List String)
      → run (Unit {0}) post r w rest
        ≡ (if r.method == "POST" then takes tt rest w else rejects none w)
  pub run_json :
      (r : Request Value) (w : S) (rest : List String)
      → run Value json r w rest ≡ (elim r.body [ none ↦ rejects none w | some v ↦ takes v rest w ])
  pub run_query :
      (r : Request Value) (w : S) (rest : List String)
      → run (List (String × String)) query r w rest ≡ takes r.query rest w
  pub run_ws :
      (r : Request Value) (w : S) (rest : List String)
      → run (Unit {0}) ws r w rest ≡ (
          if r.method == "GET"
          then (if r.upgrade then takes tt rest w else rejects none w)
          else rejects none w)
  pub run_and :
      (A B : Type 0) (f : Filter A) (g : Filter B) (r : Request Value) (w : S) (rest : List String)
      → run (A × B) (and A B f g) r w rest
        ≡ then_take
            (run A f r w rest)
            (λ a left u. then_take (run B g r u left) (λ b end v. takes (a, b) end v))
  pub run_or :
      (A : Type 0) (f g : Filter A) (r : Request Value) (w : S) (rest : List String)
      → run A (or A f g) r w rest ≡ or_take (run A f r w rest) (λ u. run A g r u rest)
  pub run_map :
      (A B : Type 0) (h : A → B) (f : Filter A) (r : Request Value) (w : S) (rest : List String)
      → run B (map A B h f) r w rest ≡ then_take (run A f r w rest) (λ a left u. takes (h a) left u)
  pub run_and_then :
      (A B : Type 0) (h : A → S → Ran S E B) (f : Filter A) (r : Request Value) (w : S)
      (rest : List String)
      → run B (and_then A B h f) r w rest
        ≡ then_take (run A f r w rest) (λ a left u. resume left (h a u))

-- The handlers, with what the filters hand them; the ledger goes to all of them.
pub data Call (Value : Type 0) : Type 0 where
  handle_faucet handle_transfer handle_post_moment : Value → Call Value
  handle_balance handle_transactions : String → Call Value
  handle_get_moments : List (String × String) → Call Value
  handle_status : Call Value

abbrev pub api_version : String
api_version = "v1"

-- `perform` is what a handler does and answers, in the state that it finds.
module _ {Value S E B : Type 0} (W : Filters Value S E) (perform : Call Value → S → Ran S E B) where
  abbrev pub under_version : String → W.Filter (Unit {0} × Unit {0})
  under_version name = W.and _ _ (W.path api_version) (W.path name)

  -- Routes that post a JSON body.
  abbrev pub posts : String → (Value → Call Value) → W.Filter B
  posts name handler =
      W.and_then _ _ (λ a. perform (handler a.1))
        (W.and _ _ (W.and _ _ (under_version name) W.post) W.json)

  -- Routes that get something by a name in the path.
  abbrev pub gets_one : String → (String → Call Value) → W.Filter B
  gets_one name handler =
      W.and_then _ _ (λ a. perform (handler a.0.1))
        (W.and _ _ (W.and _ _ (under_version name) W.param) W.get)

  abbrev pub get_moments_route : W.Filter B
  get_moments_route =
      W.and_then _ _ (λ a. perform (handle_get_moments a.1))
        (W.and _ _ (W.and _ _ (under_version "moments") W.get) W.query)

  abbrev pub status_route : W.Filter B
  status_route =
      W.and_then _ _ (λ a. perform handle_status) (W.and _ _ (under_version "status") W.get)

  unfoldable pub api_routes : W.Filter B
  api_routes =
      let faucet_route = posts "faucet" handle_faucet in
      let balance_route = gets_one "balance" handle_balance in
      let transfer_route = posts "transfer" handle_transfer in
      let transactions_route = gets_one "transactions" handle_transactions in
      let post_moment_route = posts "moments" handle_post_moment in
      W.or _
        (W.or _
          (W.or _
            (W.or _ (W.or _ (W.or _ faucet_route balance_route) transfer_route) transactions_route)
            post_moment_route)
          get_moments_route)
        status_route
