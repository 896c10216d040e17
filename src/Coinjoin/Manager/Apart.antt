-- ===== src/Coinjoin/Manager/Apart.antt =====
-- The sessions of a `CoinJoinManager` of src/coinjoin.rs next to each other: what the calls that name
-- one session do and answer, among the calls for all the others.
use hancoin.Prelude.{
  ℕ, ◌≡◌, refl, inl, inr, ap, ap₂, ◌∙◌, String, Bool, true, false, List, [], ◌∷◌, Option, none,
  some, arith, contains, ◌==◌, eq_iff, Bool-cases, if◌then◌else◌,
}
use hancoin.Stores.{DashMap, get-insert_ne}
use hancoin.Coinjoin.Data.{CoinJoinSession, CoinJoinSessionInfo}
use hancoin.Coinjoin.Session
use hancoin.Coinjoin.Session.{get_info}
use hancoin.Coinjoin.Manager.{
  CoinJoinManager, CleanupEvent, Answer, err, session_missing, not_a_participant, wrong_status,
  requested, create_session, get_session, add_input, cleanup_turn,
}
use hancoin.Coinjoin.Manager.Laws.{id-requested, get_session-create_session, add_input_cases}
use hancoin.Coinjoin.Manager.Life.{Call, creates, asks_input, cleans, apply, apply_all}

pub data Reply (A : Type 0) : Type 0 where
  created : CoinJoinSessionInfo → Reply A
  answered : Answer A → Reply A
  -- A turn of the cleaning task answers nobody.
  nothing : Reply A

-- The call is one for the session of that identifier.
abbrev pub names : String → Call → Bool
names id (creates req uuid now later) = uuid == id
names id (asks_input session_id req now) = session_id == id
names id (cleans event) = false

abbrev pub calls_for : String → List Call → List Call
calls_for id [] = []
calls_for id (c ∷ calls) = let rest = calls_for id calls in if names id c then c ∷ rest else rest

module _ (D : DashMap CoinJoinSession) {A : Type 0} (finish : CoinJoinSession → Answer A) where
  -- What a call answers.
  unfoldable pub reply : CoinJoinManager D → Call → Reply A
  reply m (creates req uuid now later) = created (create_session D m req uuid now later).1
  reply m (asks_input session_id req now) = answered (add_input D finish m session_id req now).1
  reply m (cleans event) = nothing

  -- The answers to the calls that name a session, while all the calls are carried out.
  abbrev pub heard : String → CoinJoinManager D → List Call → List (Reply A)
  heard id m [] = []
  heard id m (c ∷ calls) =
      let rest = heard id (apply D finish m c) calls in
      if names id c then reply m c ∷ rest else rest

  -- A place for one session, which knows the manager's time-out and no other session.
  unfoldable pub use_slot : ℕ → Option CoinJoinSession → Call → Option CoinJoinSession × Reply A
  use_slot session_timeout slot (creates req uuid now later) =
      let s : CoinJoinSession = requested D session_timeout req uuid now later in
      (some s, created (get_info s))
  use_slot session_timeout none (asks_input session_id req now) =
      (none, answered (err (session_missing session_id)))
  use_slot session_timeout (some s) (asks_input session_id req now) =
      if contains s.participants req.participant_id
      then (let added = Session.add_input s req.input now in
          (some added.0, answered (if added.1 then finish added.0 else err wrong_status)))
      else (some s, answered (err (not_a_participant req.participant_id)))
  use_slot session_timeout slot (cleans event) = (slot, nothing)

  unfoldable pub use_slot_all :
      ℕ → Option CoinJoinSession → List Call → Option CoinJoinSession × List (Reply A)
  use_slot_all session_timeout slot [] = (slot, [])
  use_slot_all session_timeout slot (c ∷ calls) =
      let used = use_slot session_timeout slot c in
      let rest = use_slot_all session_timeout used.0 calls in (rest.0, used.1 ∷ rest.1)

  session_timeout-apply :
      (m : CoinJoinManager D) (c : Call) → (apply D finish m c).session_timeout ≡ m.session_timeout
  unfolding apply create_session cleanup_turn
  session_timeout-apply m (creates req uuid now later) = refl
  session_timeout-apply m (asks_input session_id req now) =
      elim (add_input_cases D finish m session_id req now) [
        | inl (_, e) ↦ ap (λ r. r.0.session_timeout) e
        | inr (inl (_, _, _, e)) ↦ ap (λ r. r.0.session_timeout) e
        | inr (inr (_, _, _, e, _)) ↦ ap (λ k. k.session_timeout) e
      ]
  session_timeout-apply m (cleans CleanupEvent.tick) = refl
  session_timeout-apply m (cleans CleanupEvent.closed) = refl

  -- A call for another session leaves this one alone.
  apply_other :
      (m : CoinJoinManager D) (c : Call) (id : String)
      → names id c ≡ false
      → get_session D (apply D finish m c) id ≡ get_session D m id
  unfolding apply get_session cleanup_turn
  apply_other m (creates req uuid now later) id other =
      (get_session-create_session D m req uuid now later).4 id other
  apply_other m (asks_input session_id req now) id other =
      elim (add_input_cases D finish m session_id req now) [
        | inl (_, e) ↦ ap (λ r. D.get r.0.sessions id) e
        | inr (inl (_, _, _, e)) ↦ ap (λ r. D.get r.0.sessions id) e
        | inr (inr (s, _, _, e, _)) ↦
            ap (λ k. D.get k.sessions id) e ∙ get-insert_ne D m.sessions session_id id _ other
      ]
  apply_other m (cleans CleanupEvent.tick) id other = refl
  apply_other m (cleans CleanupEvent.closed) id other = refl

  -- A call for this session does and answers what it does in a place of its own.
  apply_same :
      (m : CoinJoinManager D) (c : Call) (id : String) (slot : Option CoinJoinSession)
      → names id c ≡ true
      → get_session D m id ≡ slot
      → (get_session D (apply D finish m c) id ≡ (use_slot m.session_timeout slot c).0)
        × (reply m c ≡ (use_slot m.session_timeout slot c).1)
  unfolding apply reply use_slot get_session create_session
  apply_same m (creates req uuid now later) id slot same e =
      let s : CoinJoinSession = requested D m.session_timeout req uuid now later in
      (
        ground (
          arith,
          D.get_insert m.sessions s.id id s,
          id-requested D m.session_timeout req uuid now later,
        ),
        refl,
      )
  apply_same m (asks_input session_id req now) id slot same e =
      let named = eq_iff session_id id in
      elim (add_input_cases D finish m session_id req now) [
        | inl (missing, done) ↦ rw done (ground (arith, named))
        | inr (inl (s, found, stranger, done)) ↦ rw done (ground (arith, named))
        | inr (inr (s, found, member, done, answer)) ↦ (
          rw done (
              ground (
                arith,
                D.get_insert m.sessions session_id id (Session.add_input s req.input now).0,
                named,
              )),
          ground (arith, named, answer),
        )
      ]
  apply_same m (cleans event) id slot same e = cc

  -- The same, where the place is already known to hold what the manager holds.
  apart_from :
      (m : CoinJoinManager D) (calls : List Call) (id : String) (session_timeout : ℕ)
      (slot : Option CoinJoinSession)
      → m.session_timeout ≡ session_timeout
      → get_session D m id ≡ slot
      → let alone = use_slot_all session_timeout slot (calls_for id calls) in
        (get_session D (apply_all D finish m calls) id ≡ alone.0) × (heard id m calls ≡ alone.1)
  unfolding apply_all use_slot_all
  apart_from m [] id session_timeout slot t e = (e, refl)
  apart_from m (c ∷ calls) id session_timeout slot t e = elim (Bool-cases (names id c)) [
    | inl same ↦
        let a = apply_same m c id slot same e in
        let rest =
          apart_from (apply D finish m c) calls id session_timeout _ (session_timeout-apply m c ∙ t)
            (a.0 ∙ ap (λ n. (use_slot n slot c).0) t) in
        rw same (rest.0, ap₂ ◌∷◌ (a.1 ∙ ap (λ n. (use_slot n slot c).1) t) rest.1)
    | inr other ↦ rw other (
        apart_from (apply D finish m c) calls id session_timeout slot
          (session_timeout-apply m c ∙ t) (apply_other m c id other ∙ e))
  ]

  -- Whatever calls a manager gets, for whatever sessions, a session becomes what the calls that name it
  -- make of it in a place of its own, and they are answered as there: no call for another session,
  -- and no turn of the cleaning task, has a part in it.
  pub sessions_are_apart :
      (m : CoinJoinManager D) (calls : List Call) (id : String)
      → let alone = use_slot_all m.session_timeout (get_session D m id) (calls_for id calls) in
        (get_session D (apply_all D finish m calls) id ≡ alone.0) × (heard id m calls ≡ alone.1)
  sessions_are_apart m calls id = apart_from m calls id m.session_timeout _ refl refl
