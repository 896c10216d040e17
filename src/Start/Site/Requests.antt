-- ===== src/Start/Site/Requests.antt =====
-- What requests to the whole node of src/main.rs leave of its ledger and its sessions.
use hancoin.Prelude.{
  ℕ, ◌≡◌, refl, sym, ap, ◌∙◌, subst, List, Option, none, some, inl, inr, Bool-cases, ◌==◌, String,
}
use hancoin.Machine.{Profile, Clock}
use hancoin.Stores.{DashMap, DashSet}
use hancoin.Ledger.{Stores, Ledger}
use hancoin.Api.{Outcome, reply, reject, panic, HancoinError, Json, Crypto}
use hancoin.Api.Node.{Rest, serve}
use hancoin.Api.Node
use hancoin.Api.Faucet.Money.{IsBacked}
use hancoin.Coinjoin.Data.{CoinJoinSession}
use hancoin.Coinjoin.Manager.{Answer}
use hancoin.Coinjoin.Manager.Life
use hancoin.Coinjoin.Manager.Life.{apply_all-IsManaged}
use hancoin.Ws.Token.{Decode, JwtValidator}
use hancoin.Ws.Chat.{Input}
use hancoin.Replies.{Rejections, handle_rejection}
use hancoin.Routes.{
  Request, Filters, Call, handle_faucet, handle_balance, handle_transfer, handle_post_moment,
  handle_transactions, handle_get_moments, handle_status, Ran, answered, refused, broken,
}
use hancoin.Routes.Endpoints.{called, state_of, after_refusal, or_ran, map_ran, attempt, by_path}
use hancoin.Routes.Outcomes.{in_turn, settle, called-recovered}
use hancoin.Routes.Answers.{upgrade_to, called-tried}
use hancoin.Routes.Server.{replies, coinjoin, fails, Wrapping, tried, routes}
use hancoin.Start.{Node}
use hancoin.Start.Sound.{IsSound, Keeps, serve-IsBacked}
use hancoin.Start.Site.{ran, call}

module _ (S : Stores) (D : DashMap CoinJoinSession) (js : Json) (C : Crypto) {A : Type 0}
    (finish : CoinJoinSession → Answer A) where
  -- The CoinJoin routes are given the manager alone, whose sessions are private: they reach the node by
  -- calls of the manager only, however many.
  abbrev pub OnlyCalls :
      {B : Type 0} → (W : Filters js.Value (Node S D) HancoinError) → W.Filter B → Type 0
  OnlyCalls W coinjoin_routes =
      (r : Request js.Value) (node : Node S D) (path : List String)
      → (cs : List Life.Call) × (state_of (called (W.run _ coinjoin_routes r node path))
          ≡ record node { coinjoin_manager = Life.apply_all D finish node.coinjoin_manager cs })

  state_of-map_ran :
      {B B' : Type 0} (h : B → B') (c : Ran (Node S D) HancoinError B)
      → state_of (map_ran h c) ≡ state_of c
  state_of-map_ran h (answered b node) = refl
  state_of-map_ran h (refused e node) = refl
  state_of-map_ran h (broken node) = refl

  state_of-after_refusal :
      {B : Type 0} (e : Option HancoinError) (c : Ran (Node S D) HancoinError B)
      → state_of (after_refusal e c) ≡ state_of c
  state_of-after_refusal e (answered b node) = refl
  state_of-after_refusal e (refused x node) = refl
  state_of-after_refusal e (broken node) = refl

  or_ran-IsSound :
      {B : Type 0} (c : Ran (Node S D) HancoinError B)
      (g : Node S D → Ran (Node S D) HancoinError B)
      → IsSound S D (state_of c)
      → ((node : Node S D) → IsSound S D node → IsSound S D (state_of (g node)))
      → IsSound S D (state_of (or_ran c g))
  or_ran-IsSound (answered b node) g h k = h
  or_ran-IsSound (refused e node) g h k =
      subst (IsSound S D) (sym (state_of-after_refusal e (g node))) (k node h)
  or_ran-IsSound (broken node) g h k = h

  in_turn-IsSound :
      {Reply B : Type 0} (o : Option Input) (c : Ran (Node S D) HancoinError Reply)
      (d : Node S D → Ran (Node S D) HancoinError B) (node : Node S D)
      → IsSound S D node
      → IsSound S D (state_of c)
      → ((u : Node S D) → IsSound S D u → IsSound S D (state_of (d u)))
      → IsSound S D (state_of (in_turn o c d node))
  in_turn-IsSound (some input) c d node h k l = h
  in_turn-IsSound none c d node h k l =
      or_ran-IsSound (after_refusal none (map_ran replies c)) (λ u. map_ran coinjoin (d u))
        (subst (IsSound S D)
          (sym (state_of-after_refusal none (map_ran replies c) ∙ state_of-map_ran replies c)) k)
        (λ u m. subst (IsSound S D) (sym (state_of-map_ran coinjoin (d u))) (l u m))

  state_of-settle :
      {B : Type 0} (last : B) (c : Ran (Node S D) HancoinError B)
      → state_of (settle last c) ≡ state_of c
  state_of-settle last (answered b node) = refl
  state_of-settle last (refused e node) = refl
  state_of-settle last (broken node) = refl

  module _ (profile : Profile) (rest : Rest S js C)
      (others : Call js.Value → Ledger S → Outcome (Unit {0}) × Ledger S)
      (keeps : Keeps S D js C finish profile rest)
      (keep : (c : Call js.Value) (l : Ledger S) → IsBacked S l → IsBacked S (others c l).1) where
    ran-IsSound :
        (node : Node S D) (o : Outcome (Unit {0})) (l : Ledger S)
        → IsSound S D node
        → IsBacked S l
        → IsSound S D (state_of (ran S D js C finish node o l))
    ran-IsSound node (reply a) l h b = record { backed = b; managed = h.managed }
    ran-IsSound node (reject e) l h b = record { backed = b; managed = h.managed }
    ran-IsSound node panic l h b = record { backed = b; managed = h.managed }

    asked_api-IsBacked :
        (node : Node S D) (r : Node.Request S js C)
        → IsSound S D node
        → IsBacked S (serve S js C profile rest node.ledger r).1
    asked_api-IsBacked node r h =
        serve-IsBacked S D js C finish profile rest keeps r node.ledger h.backed

    call-IsSound :
        (clock created : Clock) (c : Call js.Value) (node : Node S D)
        → IsSound S D node
        → IsSound S D (state_of (call S D js C finish profile rest others clock created c node))
    unfolding call
    call-IsSound clock created (handle_faucet v) node h =
        ran-IsSound node _ _ h (asked_api-IsBacked node (Node.faucet v clock created) h)
    call-IsSound clock created (handle_balance id) node h =
        ran-IsSound node _ _ h (asked_api-IsBacked node (Node.balance id) h)
    call-IsSound clock created (handle_transfer v) node h =
        ran-IsSound node _ _ h (asked_api-IsBacked node (Node.transfer v) h)
    call-IsSound clock created (handle_post_moment v) node h =
        ran-IsSound node _ _ h (keep (handle_post_moment v) node.ledger h.backed)
    call-IsSound clock created (handle_transactions id) node h =
        ran-IsSound node _ _ h (keep (handle_transactions id) node.ledger h.backed)
    call-IsSound clock created (handle_get_moments q) node h =
        ran-IsSound node _ _ h (keep (handle_get_moments q) node.ledger h.backed)
    call-IsSound clock created handle_status node h =
        ran-IsSound node _ _ h (keep handle_status node.ledger h.backed)

    attempt-IsSound :
        (clock created : Clock) (c : Option (Call js.Value)) (node : Node S D)
        → IsSound S D node
        → IsSound S D
            (state_of (attempt (call S D js C finish profile rest others clock created) c node))
    attempt-IsSound clock created none node h = h
    attempt-IsSound clock created (some c) node h = call-IsSound clock created c node h

    module _ {B : Type 0} (W : Filters js.Value (Node S D) HancoinError) (set : DashSet)
        (decode : Decode) (v : JwtValidator set) (R : Rejections) (wrapping : Wrapping W R)
        (coinjoin_routes : W.Filter B) (only : OnlyCalls W coinjoin_routes) where
      coinjoin_routes-IsSound :
          (r : Request js.Value) (path : List String) (node : Node S D)
          → IsSound S D node
          → IsSound S D (state_of (called (W.run _ coinjoin_routes r node path)))
      coinjoin_routes-IsSound r path node h =
          let o = only r node path in
          subst (IsSound S D) (sym o.1) (record {
            backed = h.backed;
            managed = apply_all-IsManaged D finish node.coinjoin_manager o.0 h.managed;
          })

      tried-IsSound :
          (now : ℕ) (clock created : Clock) (r : Request js.Value) (node : Node S D)
          (path : List String)
          → IsSound S D node
          → IsSound S D (
              state_of (
                called (
                  W.run _
                    (tried W set decode v now
                      (call S D js C finish profile rest others clock created)
                      coinjoin_routes)
                    r
                    node
                    path)))
      tried-IsSound now clock created r node path h =
          let perform = call S D js C finish profile rest others clock created in
          let f = tried W set decode v now perform coinjoin_routes in
          subst (λ c. IsSound S D (state_of c))
            (sym (called-tried W set decode v now r perform coinjoin_routes node path))
            (in_turn-IsSound (upgrade_to W set decode v now r path)
              (attempt perform (by_path r path) node)
              (λ u. called (W.run _ coinjoin_routes r u path)) node h
              (attempt-IsSound clock created (by_path r path) node h)
              (coinjoin_routes-IsSound r path))

      with_cors-IsSound :
          {A' : Type 0} (f : W.Filter A') (r : Request js.Value) (node : Node S D)
          (path : List String)
          → IsSound S D node
          → IsSound S D (state_of (called (W.run _ f r node path)))
          → IsSound S D (state_of (called (W.run _ (wrapping.with_cors _ f) r node path)))
      with_cors-IsSound f r node path h k = elim (Bool-cases (r.method == "OPTIONS")) [
        | inr other ↦
            subst (λ t. IsSound S D (state_of (called t)))
              (sym (wrapping.run_with_cors _ f r node path other)) k
        | inl options ↦ elim (wrapping.run_with_cors_options _ f r node path options) [
          | inl same ↦ subst (λ t. IsSound S D (state_of (called t))) (sym same) k
          | inr still ↦ subst (IsSound S D) (sym still) h
        ]
      ]

      pub routes-IsSound :
          (now : ℕ) (clock created : Clock) (r : Request js.Value) (node : Node S D)
          (path : List String)
          → IsSound S D node
          → IsSound S D (
              state_of (
                called (
                  W.run _
                    (routes W set decode v now
                      (call S D js C finish profile rest others clock created)
                      R
                      wrapping
                      coinjoin_routes)
                    r
                    node
                    path)))
      unfolding routes
      routes-IsSound now clock created r node path h =
          let f =
            tried W set decode v now (call S D js C finish profile rest others clock created)
              coinjoin_routes in
          let g = wrapping.with_cors _ f in
          let same =
            ap state_of (
              ap called
                (wrapping.run_recover _ (λ err. fails (handle_rejection R err)) g r node path)
              ∙ called-recovered _ path (W.run _ g r node path))
            ∙ state_of-settle _ (called (W.run _ g r node path)) in
          subst (IsSound S D) (sym same)
            (with_cors-IsSound f r node path h (tried-IsSound now clock created r node path h))
