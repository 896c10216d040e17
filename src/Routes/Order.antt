-- ===== src/Routes/Order.antt =====
-- The routes of `create_api_routes` of src/main.rs, one after another.
use hancoin.Prelude.{◌≡◌, String, List}
use hancoin.Routes.{
  Request, Filters, Call, handle_faucet, handle_transfer, handle_post_moment, handle_balance,
  handle_transactions, posts, gets_one, get_moments_route, status_route, api_routes, Ran,
}
use hancoin.Routes.Endpoints.{called, or_ran}
use hancoin.Routes.Each.{called-or}

module _ {Value S E B : Type 0} (W : Filters Value S E) (perform : Call Value → S → Ran S E B)
    (r : Request Value) (w : S) where
  -- What the seven routes come to, in their order.
  abbrev pub first_of : (a b c d e f g : S → Ran S E B) → Ran S E B
  first_of a b c d e f g = or_ran (or_ran (or_ran (or_ran (or_ran (or_ran (a w) b) c) d) e) f) g

  pub called-api_routes :
      (path : List String)
      → called (W.run _ (api_routes W perform) r w path)
        ≡ first_of
            (λ u. called (W.run _ (posts W perform "faucet" handle_faucet) r u path))
            (λ u. called (W.run _ (gets_one W perform "balance" handle_balance) r u path))
            (λ u. called (W.run _ (posts W perform "transfer" handle_transfer) r u path))
            (λ u. called (W.run _ (gets_one W perform "transactions" handle_transactions) r u path))
            (λ u. called (W.run _ (posts W perform "moments" handle_post_moment) r u path))
            (λ u. called (W.run _ (get_moments_route W perform) r u path))
            (λ u. called (W.run _ (status_route W perform) r u path))
  unfolding api_routes
  called-api_routes path = simp called-or
