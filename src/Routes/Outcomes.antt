-- ===== src/Routes/Outcomes.antt =====
-- What a request to the server of src/main.rs comes to, from what the chat, a handler and the CoinJoin
-- routes make of it.
use hancoin.Prelude.{◌≡◌, refl, String, List, Option, none, some, arith}
use hancoin.Ws.Chat.{Input}
use hancoin.Routes.{Took, takes, rejects, panics, Ran, answered, refused, broken, first, then_take}
use hancoin.Routes.Endpoints.{called, after_refusal, or_ran, map_ran}
use hancoin.Routes.Server.{Served, upgrades, replies, coinjoin}

-- The ways in which a handler ends.
data Ended {S E A : Type 0} (c : Ran S E A) : Type 0 where
  answers : (a : A) (u : S) → c ≡ answered a u → Ended c
  refuses : (e : Option E) (u : S) → c ≡ refused e u → Ended c
  breaks : (u : S) → c ≡ broken u → Ended c

Ran-cases : {S E A : Type 0} (c : Ran S E A) → Ended c
Ran-cases (answered a u) = answers a u refl
Ran-cases (refused e u) = refuses e u refl
Ran-cases (broken u) = breaks u refl

module _ {S E : Type 0} where
  -- A request that the chat takes is answered there.
  abbrev pub taken : {A : Type 0} → Option A → S → Ran S E A
  taken none w = refused none w
  taken (some a) w = answered a w

  abbrev pub settle : {A : Type 0} → A → Ran S E A → Ran S E A
  settle last (answered a w) = answered a w
  settle last (refused e w) = answered last w
  settle last (broken w) = broken w

  pub called-recovered :
      {A : Type 0} (last : A) (path : List String) (t : Took S E A)
      → called (elim t [
        | takes a rest u ↦ takes a rest u
        | rejects e u ↦ takes last path u
        | panics u ↦ panics u
      ])
        ≡ settle last (called t)
  called-recovered last path (takes a rest u) = refl
  called-recovered last path (rejects e u) = refl
  called-recovered last path (panics u) = refl

  pub called-eq_refused :
      {A : Type 0} (t : Took S E A) (e : Option E) (u : S)
      → called t ≡ refused e u
      → t ≡ rejects e u
  called-eq_refused (takes a rest w) e u h = cc
  called-eq_refused (rejects x w) e u h = ground arith
  called-eq_refused (panics w) e u h = cc

  pub then_take-map :
      {A C : Type 0} (h : A → C) (t : Took S E A)
      → called (then_take t (λ a left u. takes (h a) left u)) ≡ map_ran h (called t)
  then_take-map h (takes a rest u) = refl
  then_take-map h (rejects e u) = refl
  then_take-map h (panics u) = refl

module _ {S E Reply B : Type 0} where
  -- What a request comes to that the chat takes, or that a handler and then the CoinJoin routes get.
  abbrev pub outcome :
      Served Reply B → Option Input → Ran S E Reply → (S → Ran S E B) → S → Ran S E (Served Reply B)
  outcome last (some input) c d w = answered (upgrades input) w
  outcome last none (answered reply u) d w = answered (replies reply) u
  outcome last none (broken u) d w = broken u
  outcome last none (refused e u) d w = elim (d u) [
    | answered b t ↦ answered (coinjoin b) t
    | broken t ↦ broken t
    | refused late t ↦ answered last t
  ]

  -- Where nothing takes a request, `found` is the error of its handler, or else that of the CoinJoin
  -- routes.
  abbrev pub Blames : Option E → Option Input → Ran S E Reply → (S → Ran S E B) → Type 0
  Blames found (some input) c d = Unit
  Blames found none (answered reply u) d = Unit
  Blames found none (broken u) d = Unit
  Blames found none (refused e u) d = elim (d u) [
    | answered b t ↦ Unit
    | broken t ↦ Unit
    | refused late t ↦ found ≡ first e late
  ]

  abbrev pub in_turn : Option Input → Ran S E Reply → (S → Ran S E B) → S → Ran S E (Served Reply B)
  in_turn o c d w =
      or_ran (or_ran (map_ran upgrades (taken o w)) (λ u. map_ran replies c))
        (λ u. map_ran coinjoin (d u))

  -- The chat rejects a request in the state that it finds.
  pub in_order :
      (o : Option Input) (c : S → Ran S E Reply) (d : S → Ran S E B) (w : S)
      → or_ran
          (or_ran (map_ran upgrades (taken o w)) (λ u. map_ran replies (c u)))
          (λ u. map_ran coinjoin (d u))
        ≡ in_turn o (c w) d w
  in_order (some input) c d w = refl
  in_order none c d w = refl

  settle-coinjoin :
      (last : Served Reply B) (e : Option E) (c : Ran S E B)
      → settle last (after_refusal e (map_ran coinjoin c)) ≡ (elim c [
        | answered b t ↦ answered (coinjoin b) t
        | broken t ↦ broken t
        | refused late t ↦ answered last t
      ])
  settle-coinjoin last e (answered b t) = refl
  settle-coinjoin last e (refused late t) = refl
  settle-coinjoin last e (broken t) = refl

  pub settle-outcome :
      (last : Served Reply B) (o : Option Input) (c : Ran S E Reply) (d : S → Ran S E B) (w : S)
      → settle last (in_turn o c d w) ≡ outcome last o c d w
  settle-outcome last (some input) c d w = refl
  settle-outcome last none (answered reply u) d w = refl
  settle-outcome last none (refused e u) d w = settle-coinjoin last e (d u)
  settle-outcome last none (broken u) d w = refl

  pub outcome-Blames :
      (found : Option E) (o : Option Input) (c : Ran S E Reply) (d : S → Ran S E B) (w : S)
      → ((x : Option E) (t : S) → in_turn o c d w ≡ refused x t → found ≡ x)
      → Blames found o c d
  outcome-Blames found (some input) c d w h = tt
  outcome-Blames found none (answered reply u) d w h = tt
  outcome-Blames found none (broken u) d w h = tt
  outcome-Blames found none (refused e u) d w h = elim (Ran-cases (d u)) [
    | answers b t s ↦ rw (s, Blames) tt
    | breaks t s ↦ rw (s, Blames) tt
    | refuses late t s ↦ rw (s, Blames) (h (first e late) t (rw s refl))
  ]
