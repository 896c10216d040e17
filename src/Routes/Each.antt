-- ===== src/Routes/Each.antt =====
-- What each route of `create_api_routes` of src/main.rs takes.
use hancoin.Prelude.{
  ◌≡◌, refl, ap, ◌∙◌, String, List, [], ◌∷◌, Option, none, some, arith, ◌==◌, if◌then◌else◌,
}
use hancoin.Routes.{
  Request, Filters, Call, handle_get_moments, handle_status, api_version, posts, gets_one,
  under_version, get_moments_route, status_route, Took, takes, rejects, panics, Ran, answered,
  refused, broken, then_take, or_take, after_reject, resume,
}
use hancoin.Routes.Endpoints.{
  with_body, with_name, called, after_refusal, or_ran, then_ran, attempt,
}

module _ {S E : Type 0} where
  called-resume : {A : Type 0} (rest : List String) (c : Ran S E A) → called (resume rest c) ≡ c
  called-resume rest (answered a s) = refl
  called-resume rest (refused e s) = refl
  called-resume rest (broken s) = refl

  after_reject-called :
      {A : Type 0} (e : Option E) (t : Took S E A)
      → called (after_reject e t) ≡ after_refusal e (called t)
  after_reject-called e (takes a rest s) = refl
  after_reject-called e (rejects later s) = refl
  after_reject-called e (panics s) = refl

  called-or_take :
      {A : Type 0} (t : Took S E A) (g : S → Took S E A)
      → called (or_take t g) ≡ or_ran (called t) (λ u. called (g u))
  called-or_take (takes a rest s) g = refl
  called-or_take (rejects e s) g = after_reject-called e (g s)
  called-or_take (panics s) g = refl

module _ {Value S E B : Type 0} (W : Filters Value S E) (perform : Call Value → S → Ran S E B)
    (r : Request Value) (w : S) where
  then_take-resume :
      {A : Type 0} (h : A → S → Ran S E B) (t : Took S E A)
      → called (then_take t (λ a left u. resume left (h a u))) ≡ then_ran (called t) h
  then_take-resume h (takes a rest s) = ground (arith, called-resume rest (h a s))
  then_take-resume h (rejects e s) = refl
  then_take-resume h (panics s) = refl

  called-and_then :
      {A : Type 0} (h : A → S → Ran S E B) (f : W.Filter A) (path : List String)
      → called (W.run B (W.and_then A B h f) r w path) ≡ then_ran (called (W.run A f r w path)) h
  called-and_then {A} h f path =
      ap called (W.run_and_then A B h f r w path) ∙ then_take-resume h (W.run A f r w path)

  run_version :
      (name v t : String) (rest : List String)
      → W.run _ (under_version W perform name) r w (v ∷ t ∷ rest) ≡ (
          if v == api_version
          then (if t == name then takes (tt, tt) rest w else rejects none w)
          else rejects none w)
  run_version name v t rest = ground (
    arith,
    W.run_and _ _ (W.path api_version) (W.path name) r w (v ∷ t ∷ rest),
    W.run_path api_version r w v (t ∷ rest),
    W.run_path name r w t rest,
  )

  pub called-posts :
      (name : String) (h : Value → Call Value) (v t : String) (rest : List String)
      → called (W.run _ (posts W perform name h) r w (v ∷ t ∷ rest))
        ≡ attempt perform
            (if v == api_version then (if t == name then with_body r h else none) else none)
            w
  called-posts name h v t rest =
      let path = v ∷ t ∷ rest in
      let two = W.and _ _ (under_version W perform name) W.post in
      ground (
        arith,
        called-and_then (λ a. perform (h a.1)) (W.and _ _ two W.json) path,
        W.run_and _ _ two W.json r w path,
        W.run_and _ _ (under_version W perform name) W.post r w path,
        run_version name v t rest,
        W.run_post r w rest,
        W.run_json r w rest,
      )

  pub called-gets_one :
      (name : String) (h : String → Call Value) (v t : String) (rest : List String)
      → called (W.run _ (gets_one W perform name h) r w (v ∷ t ∷ rest))
        ≡ attempt perform
            (if v == api_version then (if t == name then with_name r h rest else none) else none)
            w
  called-gets_one name h v t [] =
      let path = v ∷ t ∷ [] in
      let two = W.and _ _ (under_version W perform name) W.param in
      ground (
        arith,
        called-and_then (λ a. perform (h a.0.1)) (W.and _ _ two W.get) path,
        W.run_and _ _ two W.get r w path,
        W.run_and _ _ (under_version W perform name) W.param r w path,
        run_version name v t [],
        W.run_param_nil r w,
      )
  called-gets_one name h v t (s ∷ rest) =
      let path = v ∷ t ∷ s ∷ rest in
      let two = W.and _ _ (under_version W perform name) W.param in
      ground (
        arith,
        called-and_then (λ a. perform (h a.0.1)) (W.and _ _ two W.get) path,
        W.run_and _ _ two W.get r w path,
        W.run_and _ _ (under_version W perform name) W.param r w path,
        run_version name v t (s ∷ rest),
        W.run_param r w s rest,
        W.run_get r w rest,
      )

  pub called-get_moments_route :
      (v t : String) (rest : List String)
      → called (W.run _ (get_moments_route W perform) r w (v ∷ t ∷ rest))
        ≡ attempt perform
            (if v == api_version
              then (if t == "moments"
                  then (if r.method == "GET" then some (handle_get_moments r.query) else none)
                  else none)
              else none)
            w
  called-get_moments_route v t rest =
      let path = v ∷ t ∷ rest in
      let two = W.and _ _ (under_version W perform "moments") W.get in
      ground (
        arith,
        called-and_then (λ a. perform (handle_get_moments a.1)) (W.and _ _ two W.query) path,
        W.run_and _ _ two W.query r w path,
        W.run_and _ _ (under_version W perform "moments") W.get r w path,
        run_version "moments" v t rest,
        W.run_get r w rest,
        W.run_query r w rest,
      )

  pub called-status_route :
      (v t : String) (rest : List String)
      → called (W.run _ (status_route W perform) r w (v ∷ t ∷ rest))
        ≡ attempt perform
            (if v == api_version
              then (if t == "status"
                  then (if r.method == "GET" then some handle_status else none)
                  else none)
              else none)
            w
  called-status_route v t rest =
      let path = v ∷ t ∷ rest in
      ground (
        arith,
        called-and_then (λ a. perform handle_status)
            (W.and _ _ (under_version W perform "status") W.get) path,
        W.run_and _ _ (under_version W perform "status") W.get r w path,
        run_version "status" v t rest,
        W.run_get r w rest,
      )

pub called-or :
    {Value S E A : Type 0} (W : Filters Value S E) (r : Request Value) (f g : W.Filter A) (w : S)
    (path : List String)
    → called (W.run _ (W.or _ f g) r w path)
      ≡ or_ran (called (W.run _ f r w path)) (λ u. called (W.run _ g r u path))
called-or W r f g w path =
    ap called (W.run_or _ f g r w path)
    ∙ called-or_take (W.run _ f r w path) (λ u. W.run _ g r u path)
