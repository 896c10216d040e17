-- ===== src/Routes/Short.antt =====
-- Requests to src/main.rs whose paths have fewer than two segments: no route of `create_api_routes`
-- takes them.
use hancoin.Prelude.{◌≡◌, refl, ◌∙◌, String, List, [], ◌∷◌, none, arith}
use hancoin.Routes.{
  Request, Filters, Call, handle_get_moments, handle_status, api_version, posts, gets_one,
  under_version, get_moments_route, status_route, api_routes, rejects, Ran, refused,
}
use hancoin.Routes.Endpoints.{called}
use hancoin.Routes.Order.{called-api_routes}

module _ {Value S E B : Type 0} (W : Filters Value S E) (perform : Call Value → S → Ran S E B)
    (r : Request Value) (w : S) where
  and_rejects :
      {A C : Type 0} (f : W.Filter A) (g : W.Filter C) (path : List String)
      → W.run A f r w path ≡ rejects none w
      → W.run _ (W.and A C f g) r w path ≡ rejects none w
  and_rejects {A} {C} f g path h = W.run_and A C f g r w path ∙ rw h refl

  and_then-rejects :
      {A : Type 0} (h : A → S → Ran S E B) (f : W.Filter A) (path : List String)
      → W.run A f r w path ≡ rejects none w
      → called (W.run _ (W.and_then A B h f) r w path) ≡ refused none w
  and_then-rejects {A} h f path e = rw (W.run_and_then A B h f r w path, e) refl

  -- A path with fewer than two segments is under no version.
  pub run_short :
      (name v : String)
      → (W.run _ (under_version W perform name) r w [] ≡ rejects none w)
        × (W.run _ (under_version W perform name) r w (v ∷ []) ≡ rejects none w)
  run_short name v = (
    and_rejects (W.path api_version) (W.path name) [] (W.run_path_nil api_version r w),
    ground (
      arith,
      W.run_and _ _ (W.path api_version) (W.path name) r w (v ∷ []),
      W.run_path api_version r w v [],
      W.run_path_nil name r w,
    ),
  )

module _ {Value S E B : Type 0} (W : Filters Value S E) (perform : Call Value → S → Ran S E B)
    (r : Request Value) (path : List String)
    (short : (w : S) (name : String)
      → W.run _ (under_version W perform name) r w path ≡ rejects none w) where
  short-posts :
      (name : String) (h : Value → Call Value) (w : S)
      → called (W.run _ (posts W perform name h) r w path) ≡ refused none w
  short-posts name h w =
      and_then-rejects W perform r w (λ a. perform (h a.1)) _ path
        (and_rejects W perform r w _ W.json path
          (and_rejects W perform r w (under_version W perform name) W.post path (short w name)))

  short-gets_one :
      (name : String) (h : String → Call Value) (w : S)
      → called (W.run _ (gets_one W perform name h) r w path) ≡ refused none w
  short-gets_one name h w =
      and_then-rejects W perform r w (λ a. perform (h a.0.1)) _ path
        (and_rejects W perform r w _ W.get path
          (and_rejects W perform r w (under_version W perform name) W.param path (short w name)))

  short-get_moments_route :
      (w : S) → called (W.run _ (get_moments_route W perform) r w path) ≡ refused none w
  short-get_moments_route w =
      and_then-rejects W perform r w (λ a. perform (handle_get_moments a.1)) _ path
        (and_rejects W perform r w _ W.query path (
          and_rejects W perform r w (under_version W perform "moments") W.get path
            (short w "moments")))

  short-status_route : (w : S) → called (W.run _ (status_route W perform) r w path) ≡ refused none w
  short-status_route w =
      and_then-rejects W perform r w (λ a. perform handle_status) _ path
        (and_rejects W perform r w (under_version W perform "status") W.get path (short w "status"))

  pub short-api_routes : (w : S) → called (W.run _ (api_routes W perform) r w path) ≡ refused none w
  short-api_routes w =
      called-api_routes W perform r w path
      ∙ simp (short-posts, short-gets_one, short-get_moments_route, short-status_route)
