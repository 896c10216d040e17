-- ===== src/Examples/Managers.antt =====
-- Managers of src/coinjoin.rs at concrete inputs.
use hancoin.Prelude.{List, ◌≡◌, refl, [], ◌∷◌, none, some}
use hancoin.Coinjoin.Data.{CoinJoinSession, CoinJoinSessionInfo, collecting_inputs}
use hancoin.Coinjoin.Session.{new, get_info}
use hancoin.Coinjoin.Manager.{
  CleanupEvent, CoinJoinManager, CoinJoinRequest, InputRequest, Answer, ok, get_session,
}
use hancoin.Coinjoin.Session.Reach.{Reach}
use hancoin.Coinjoin.Manager.Life.{Call, creates, asks_input, cleans, apply_all, session_is_kept}
use hancoin.Coinjoin.Manager.Apart.{calls_for, heard, use_slot_all, sessions_are_apart}
use hancoin.Examples.Instances.{list_map}
use hancoin.Examples.Coinjoin.{coin}

abbrev empty : CoinJoinManager (list_map CoinJoinSession)
empty = record { sessions = []; session_timeout = 3600 }

abbrev pub alone : CoinJoinRequest
alone = record {
  min_participants = some 1;
  max_participants = none;
  target_amount = 5;
  fee_rate = none;
  timeout = none;
  participant_id = "a";
}

abbrev offer : InputRequest
offer = record { participant_id = "a"; input = coin }

-- A session of two that waits for its inputs.
abbrev waiting_for_two : CoinJoinSession
waiting_for_two = record (new "id" 2 10 5 1 60 none) {
  status = collecting_inputs;
  participants = "b" ∷ "a" ∷ [];
  inputs = [];
}

abbrev with_session : CoinJoinManager (list_map CoinJoinSession)
with_session = record { sessions = ("id", waiting_for_two) ∷ []; session_timeout = 3600 }

-- A session is created, an input is asked for, a minute passes, and another session is created.
abbrev busy : List Call
busy =
    creates alone "id" none none
    ∷ asks_input "id" offer none
    ∷ cleans CleanupEvent.tick
    ∷ creates alone "other" none none
    ∷ []

abbrev informed : CoinJoinSession → Answer CoinJoinSessionInfo
informed s = ok (get_info s)

-- What the calls of `busy` for the session "id" make of it and answer, next to the one for "other".
sessions_are_apart_example :
    let alone_there =
      use_slot_all
        (list_map CoinJoinSession)
        informed
        3600
        (get_session (list_map CoinJoinSession) with_session "id")
        (calls_for "id" busy) in
    (get_session
        (list_map CoinJoinSession)
        (apply_all (list_map CoinJoinSession) informed with_session busy)
        "id"
      ≡ alone_there.0)
    × (heard (list_map CoinJoinSession) informed "id" with_session busy ≡ alone_there.1)
sessions_are_apart_example =
    sessions_are_apart (list_map CoinJoinSession) informed with_session busy "id"

-- Two of the four calls are for the session "id".
busy_is_heard : calls_for "id" busy ≡ creates alone "id" none none ∷ asks_input "id" offer none ∷ []
busy_is_heard = refl

-- A day later a session with a time-out of a minute is still there.
session_is_kept_example :
    (t : CoinJoinSession) × (get_session
        (list_map CoinJoinSession)
        (apply_all
          (list_map CoinJoinSession)
          (λ s. ok (get_info s))
          with_session
          (creates alone "other" (some 86400) (some 86400) ∷ cleans CleanupEvent.tick ∷ []))
        "id"
      ≡ some t)
    × Reach waiting_for_two t
unfolding get_session
session_is_kept_example =
    session_is_kept (list_map CoinJoinSession) (λ s. ok (get_info s)) with_session
      (creates alone "other" (some 86400) (some 86400) ∷ cleans CleanupEvent.tick ∷ []) "id"
      waiting_for_two (refl, tt) refl
