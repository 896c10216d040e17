-- ===== src/Examples/Filters.antt =====
-- Filters and rejections for src/main.rs as functions, in place of those of warp.
use hancoin.Prelude.{
  refl, ap, String, true, false, List, [], ◌∷◌, Option, none, some, inl, ◌==◌, if◌then◌else◌,
}
use hancoin.Replies.{HancoinError, Rejections}
use hancoin.Routes.{Request, Filters, Took, takes, rejects, panics, then_take, or_take, resume}
use hancoin.Routes.Server.{Wrapping}
use hancoin.Examples.Hex.{Body}

module _ (S E : Type 0) where
  -- Filters as functions.
  abbrev Taker : Type 0 → Type 0
  Taker A = Request Body → S → List String → Took S E A

  abbrev pub take_path : String → Taker (Unit {0})
  take_path s r w [] = rejects none w
  take_path s r w (t ∷ rest) = if t == s then takes tt rest w else rejects none w

  abbrev pub take_param : Taker String
  take_param r w [] = rejects none w
  take_param r w (t ∷ rest) = if t == "" then rejects none w else takes t rest w

  abbrev pub functions : Filters Body S E
  functions = record {
    Filter = Taker;
    run = λ A f r w rest. f r w rest;
    path = take_path;
    param = take_param;
    get = λ r w rest. if r.method == "GET" then takes tt rest w else rejects none w;
    post = λ r w rest. if r.method == "POST" then takes tt rest w else rejects none w;
    json = λ r w rest. elim r.body [ none ↦ rejects none w | some v ↦ takes v rest w ];
    query = λ r w rest. takes r.query rest w;
    ws = λ r w rest.
        if r.method == "GET"
        then (if r.upgrade then takes tt rest w else rejects none w)
        else rejects none w;
    and = λ A B f g r w rest.
        then_take (f r w rest) (λ a left u. then_take (g r u left) (λ b end v. takes (a, b) end v));
    or = λ A f g r w rest. or_take (f r w rest) (λ u. g r u rest);
    map = λ A B h f r w rest. then_take (f r w rest) (λ a left u. takes (h a) left u);
    and_then = λ A B h f r w rest. then_take (f r w rest) (λ a left u. resume left (h a u));
    run_path_nil = λ s r w. refl;
    run_path = λ s r w t rest. refl;
    run_param_nil = λ r w. refl;
    run_param = λ r w t rest. refl;
    run_get = λ r w rest. refl;
    run_post = λ r w rest. refl;
    run_json = λ r w rest. refl;
    run_query = λ r w rest. refl;
    run_ws = λ r w rest. refl;
    run_and = λ A B f g r w rest. refl;
    run_or = λ A f g r w rest. refl;
    run_map = λ A B h f r w rest. refl;
    run_and_then = λ A B h f r w rest. refl;
  }

  -- A rejection is the first error that it holds; `name` is that error, if src/error.rs has it.
  abbrev pub rejections : (E → Option HancoinError) → Rejections
  rejections name = record {
    Rejection = Option E;
    find = λ e. elim e [ none ↦ none | some x ↦ name x ];
    is_not_found = λ e. elim e [ none ↦ true | some x ↦ false ];
    is_body_error = λ e. false;
    is_method_not_allowed = λ e. false;
  }

  abbrev error_of : {A : Type 0} → Took S E A → Option E
  error_of (takes a rest w) = none
  error_of (rejects e w) = e
  error_of (panics w) = none

  abbrev pub wrapping : (name : E → Option HancoinError) → Wrapping functions (rejections name)
  wrapping name = record {
    with_cors = λ A f. f;
    run_with_cors = λ A f r w path e. refl;
    run_with_cors_options = λ A f r w path e. inl refl;
    rejected = λ A f r w path. error_of (f r w path);
    find = λ e. e;
    find-rejected = λ A f r w path e u h. ap error_of h;
    recover = λ A h f r w path. elim (f r w path) [
      | takes a rest u ↦ takes a rest u
      | rejects e u ↦ takes (h (error_of (f r w path))) path u
      | panics u ↦ panics u
    ];
    run_recover = λ A h f r w path. refl;
  }

  -- Nothing is for the CoinJoin routes.
  abbrev pub no_coinjoin : Taker (Unit {0})
  no_coinjoin r w path = rejects none w
