-- ===== src/Routes/Dispatch.antt =====
-- Where a request to the routes of src/main.rs goes.
use hancoin.Prelude.{
  ◌≡◌, refl, sym, ap, ◌∙◌, ◌⊎◌, subst, String, true, false, List, [], ◌∷◌, Option, none, some, ◌==◌,
  eq_iff, if◌then◌else◌, Bool-cases, inl, inr,
}
use hancoin.Routes.{
  Request, Filters, Call, handle_post_moment, handle_get_moments, api_version, api_routes, Ran,
  answered, refused, broken,
}
use hancoin.Routes.Endpoints.{
  or_call, with_body, endpoint, by_path, called, after_refusal, or_ran, attempt,
}
use hancoin.Routes.Each.{
  called-posts, called-gets_one, called-get_moments_route, called-status_route,
}
use hancoin.Routes.Order.{first_of, called-api_routes}
use hancoin.Routes.Short.{run_short, short-api_routes}

or_call-none {ℓ} : {A : Type ℓ} (c : Option A) → or_call c none ≡ c
or_call-none none = refl
or_call-none (some c) = refl

module _ {S E B : Type 0} where
  after_refusal-none : (c : Ran S E B) → after_refusal none c ≡ c
  after_refusal-none (answered a s) = refl
  after_refusal-none (refused e s) = refl
  after_refusal-none (broken s) = refl

  or_ran-refused : (c : Ran S E B) → or_ran c (λ u. refused none u) ≡ c
  or_ran-refused (answered a s) = refl
  or_ran-refused (refused none s) = refl
  or_ran-refused (refused (some e) s) = refl
  or_ran-refused (broken s) = refl

module _ {Value : Type 0} (r : Request Value) where
  abbrev of_moments : Option (Call Value)
  of_moments = if r.method == "GET" then some (handle_get_moments r.query) else none

  -- A request is not a POST and a GET.
  one_method : (with_body r handle_post_moment ≡ none) ⊎ (of_moments ≡ none)
  one_method = elim (Bool-cases (r.method == "GET")) [
    | inr other ↦ inr (rw other refl)
    | inl e ↦
        let apart : (r.method == "POST") ≡ false =
          subst (λ m. (m == "POST") ≡ false) (sym ((eq_iff r.method "GET").0 e)) refl in
        inl (rw apart refl)
  ]

module _ {Value S E B : Type 0} (W : Filters Value S E) (perform : Call Value → S → Ran S E B)
    (r : Request Value) (w : S) where
  -- Under another version no route calls.
  under_other :
      (v t : String) (rest : List String)
      → (v == api_version) ≡ false
      → called (W.run _ (api_routes W perform) r w (v ∷ t ∷ rest)) ≡ refused none w
  under_other v t rest e =
      called-api_routes W perform r w (v ∷ t ∷ rest)
      ∙ simp (
        called-posts W perform r,
        called-gets_one W perform r,
        called-get_moments_route W perform r,
        called-status_route W perform r,
        e,
      )

  module _ (a b c d e f g : Option (Call Value)) (apart : (e ≡ none) ⊎ (f ≡ none)) where
    abbrev by_routes : String → Ran S E B
    by_routes t =
        first_of W perform r w (attempt perform (if t == "faucet" then a else none))
          (attempt perform (if t == "balance" then b else none))
          (attempt perform (if t == "transfer" then c else none))
          (attempt perform (if t == "transactions" then d else none))
          (attempt perform (if t == "moments" then e else none))
          (attempt perform (if t == "moments" then f else none))
          (attempt perform (if t == "status" then g else none))

    abbrev by_names : String → Option (Call Value)
    by_names t =
        if t == "faucet"
        then a
        else if t == "balance"
        then b
        else if t == "transfer"
        then c
        else if t == "transactions"
        then d
        else if t == "moments"
        then or_call e f
        else if t == "status"
        then g
        else none

    -- The names of the endpoints are different, so the order of the routes does not matter, but for
    -- the two of the moments.
    at_name :
        (t name : String)
        → (t == name) ≡ true
        → by_routes name ≡ attempt perform (by_names name) w
        → by_routes t ≡ attempt perform (by_names t) w
    at_name t name n h =
        subst (λ u. by_routes u ≡ attempt perform (by_names u) w) (sym ((eq_iff t name).0 n)) h

    -- A handler that rejects is not followed by the handler of another name.
    two_moments : or_ran (attempt perform e w) (attempt perform f) ≡ attempt perform (or_call e f) w
    two_moments = elim apart [
      | inl x ↦ rw x (after_refusal-none (attempt perform f w))
      | inr x ↦ rw x (
          or_ran-refused (attempt perform e w)
          ∙ sym (ap (λ c. attempt perform c w) (or_call-none e)))
    ]

    by_routes_lem : (t : String) → by_routes t ≡ attempt perform (by_names t) w
    by_routes_lem t = elim (Bool-cases (t == "faucet")) [
      | inl n ↦ at_name t "faucet" n (simp or_ran-refused)
      | inr n1 ↦ elim (Bool-cases (t == "balance")) [
        | inl n ↦ at_name t "balance" n (simp (or_ran-refused, after_refusal-none))
        | inr n2 ↦ elim (Bool-cases (t == "transfer")) [
          | inl n ↦ at_name t "transfer" n (simp (or_ran-refused, after_refusal-none))
          | inr n3 ↦ elim (Bool-cases (t == "transactions")) [
            | inl n ↦ at_name t "transactions" n (simp (or_ran-refused, after_refusal-none))
            | inr n4 ↦ elim (Bool-cases (t == "moments")) [
              | inl n ↦
                  at_name t "moments" n (simp (or_ran-refused, after_refusal-none) two_moments)
              | inr n5 ↦ rw (n1, n2, n3, n4, n5) (after_refusal-none _)
            ]
          ]
        ]
      ]
    ]

  under_v1 :
      (v t : String) (rest : List String)
      → (v == api_version) ≡ true
      → called (W.run _ (api_routes W perform) r w (v ∷ t ∷ rest))
        ≡ attempt perform (endpoint r t rest) w
  under_v1 v t rest e =
      called-api_routes W perform r w (v ∷ t ∷ rest)
      ∙ simp
          (
            called-posts W perform r,
            called-gets_one W perform r,
            called-get_moments_route W perform r,
            called-status_route W perform r,
            e,
          )
          (by_routes_lem _ _ _ _ _ _ _ (one_method r) t)

module _ {Value S E B : Type 0} (W : Filters Value S E) (perform : Call Value → S → Ran S E B)
    (r : Request Value) (w : S) where
  -- A request goes to the handler that the first two segments of its path and its method name, with
  -- the third segment, the body or the query, whatever segments follow; and to none if the version
  -- or the name is another, or what is taken is missing. What the handler answers is the answer, also
  -- where it is an error.
  pub called-api_routes_exact :
      (path : List String)
      → called (W.run _ (api_routes W perform) r w path) ≡ attempt perform (by_path r path) w
  called-api_routes_exact [] =
      short-api_routes W perform r [] (λ u name. (run_short W perform r u name "").0) w
  called-api_routes_exact (v ∷ []) =
      short-api_routes W perform r (v ∷ []) (λ u name. (run_short W perform r u name v).1) w
  called-api_routes_exact (v ∷ t ∷ rest) = elim (Bool-cases (v == api_version)) [
    | inl e ↦ rw e (under_v1 W perform r w v t rest e)
    | inr e ↦ rw e (under_other W perform r w v t rest e)
  ]
