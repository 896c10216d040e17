-- ===== src/Coinjoin/Manager/Laws.antt =====
-- What `CoinJoinManager` of src/coinjoin.rs keeps of its sessions.
use hancoin.Prelude.{
  ℕ, suc, ◌≡◌, refl, ap, inl, inr, String, true, false, List, [], ◌∷◌, none, some, arith, length,
  contains, ◌==◌, eq_iff, Bool-cases, Option-cases, ◌⊎◌, if◌then◌else◌,
}
use hancoin.Machine.{Clock}
use hancoin.Stores.{DashMap, get-insert_self, get-insert_ne}
use hancoin.Coinjoin.Data.{CoinJoinSession, TxInput, collecting_inputs, collecting_outputs}
use hancoin.Coinjoin.Session
use hancoin.Coinjoin.Session.{new, add_participant, get_info}
use hancoin.Coinjoin.Session.Invariant.{
  IsWellFormed, new-IsWellFormed, add_participant-IsWellFormed, add_input-IsWellFormed,
}
use hancoin.Coinjoin.Session.Protocol.{gives_input, step, run, calls, items}
use hancoin.Coinjoin.Session.Protocol.Collect.{collect_inputs}
use hancoin.Coinjoin.Manager.{
  CoinJoinManager, CoinJoinRequest, InputRequest, Answer, err, session_missing, not_a_participant,
  wrong_status, requested, create_session, get_session, add_input,
}

module _ (D : DashMap CoinJoinSession) where
  -- Each session is well formed and stands under its own identifier.
  pub record IsManaged (m : CoinJoinManager D) : Type 0 where
    pub at_id :
        (k : String) (s : CoinJoinSession)
        → get_session D m k ≡ some s
        → IsWellFormed s × (s.id ≡ k)

  requested-IsWellFormed :
      (t : ℕ) (req : CoinJoinRequest) (uuid : String) (now later : Clock)
      → IsWellFormed (requested D t req uuid now later)
  unfolding requested
  requested-IsWellFormed t req uuid now later =
      add_participant-IsWellFormed _ req.participant_id later
        (new-IsWellFormed uuid _ _ req.target_amount _ _ now)

  pub id-requested :
      (t : ℕ) (req : CoinJoinRequest) (uuid : String) (now later : Clock)
      → (requested D t req uuid now later).id ≡ uuid
  unfolding requested add_participant new
  id-requested t req uuid now later = ground arith

  -- A new session is found under its identifier, and no other session changes.
  pub get_session-create_session :
      (m : CoinJoinManager D) (req : CoinJoinRequest) (uuid : String) (now later : Clock)
      → let r = create_session D m req uuid now later in
        (s : CoinJoinSession) × (get_session D r.0 uuid ≡ some s)
        × (r.1 ≡ get_info s)
        × IsWellFormed s
        × ((k : String) → (uuid == k) ≡ false → get_session D r.0 k ≡ get_session D m k)
  unfolding create_session get_session
  get_session-create_session m req uuid now later =
      let s : CoinJoinSession = requested D m.session_timeout req uuid now later in
      let named : s.id ≡ uuid = id-requested m.session_timeout req uuid now later in
      (
        s,
        ground (arith, named, get-insert_self D m.sessions s.id s),
        refl,
        requested-IsWellFormed m.session_timeout req uuid now later,
        (λ k h. ground (arith, named, get-insert_ne D m.sessions s.id k s)),
      )

  -- A manager with well-formed sessions creates another one.
  pub create_session-IsManaged :
      (m : CoinJoinManager D) (req : CoinJoinRequest) (uuid : String) (now later : Clock)
      → IsManaged m
      → IsManaged (create_session D m req uuid now later).0
  unfolding create_session get_session
  create_session-IsManaged m req uuid now later v = record {
    at_id = λ k s e.
        let r : CoinJoinSession = requested D m.session_timeout req uuid now later in
        ground (
          arith,
          D.get_insert m.sessions r.id k r,
          requested-IsWellFormed m.session_timeout req uuid now later,
          eq_iff r.id k,
          v.at_id k s,
        );
  }

  module _ {A : Type 0} (finish : CoinJoinSession → Answer A) where
    -- A request for an input changes at most the session that it names, and that one as its own
    -- method does; it fails for an unknown session, for a stranger and in a wrong status.
    pub add_input_cases :
        (m : CoinJoinManager D) (id : String) (req : InputRequest) (now : Clock)
        → ((get_session D m id ≡ none)
            × (add_input D finish m id req now ≡ (m, err (session_missing id))))
          ⊎ ((s : CoinJoinSession) × (get_session D m id ≡ some s)
              × (contains s.participants req.participant_id ≡ false)
              × (add_input D finish m id req now ≡ (m, err (not_a_participant req.participant_id))))
          ⊎ ((s : CoinJoinSession) × (get_session D m id ≡ some s)
              × (contains s.participants req.participant_id ≡ true)
              × ((add_input D finish m id req now).0 ≡ record m {
                sessions = D.insert m.sessions id (Session.add_input s req.input now).0;
              })
              × ((add_input D finish m id req now).1 ≡ (
                  if (Session.add_input s req.input now).1
                  then finish (Session.add_input s req.input now).0
                  else err wrong_status)))
    unfolding add_input get_session
    add_input_cases m id req now = elim (Option-cases (D.get m.sessions id)) [
      | inl e ↦ inl (e, rw (e, add_input))
      | inr (s, e) ↦ elim (Bool-cases (contains s.participants req.participant_id)) [
        | inl member ↦
            inr (
              inr
                (s, e, member, rw (e, add_input) (ground arith), rw (e, add_input) (ground arith)))
        | inr stranger ↦ inr (inl (s, e, stranger, rw (e, add_input) (ground arith)))
      ]
    ]

    id-add_input :
        (s : CoinJoinSession) (x : TxInput) (now : Clock) → (Session.add_input s x now).0.id ≡ s.id
    unfolding Session.add_input
    id-add_input s x now = ground arith

    -- Requests for inputs keep every session well formed, whatever they answer.
    pub add_input-IsManaged :
        (m : CoinJoinManager D) (id : String) (req : InputRequest) (now : Clock)
        → IsManaged m
        → IsManaged (add_input D finish m id req now).0
    unfolding get_session
    add_input-IsManaged m id req now v = elim (add_input_cases m id req now) [
      | inl (_, e) ↦ rw e v
      | inr (inl (_, _, _, e)) ↦ rw e v
      | inr (inr (s, g, _, e, _)) ↦ rw e (record {
        at_id = λ k t h. ground (
          arith,
          D.get_insert m.sessions id k (Session.add_input s req.input now).0,
          v.at_id id s g,
          v.at_id k t,
          eq_iff id k,
          id-add_input s req.input now,
          add_input-IsWellFormed s req.input now,
        );
      })
    ]

    -- Inputs that one participant hands in, one request after another.
    pub donate : CoinJoinManager D → String → String → List (TxInput × Clock) → CoinJoinManager D
    donate m id who [] = m
    donate m id who ((x, now) ∷ xs) =
        donate (add_input D finish m id (record { participant_id = who; input = x }) now).0 id who
          xs

    participants-add_input :
        (s : CoinJoinSession) (x : TxInput) (now : Clock)
        → (Session.add_input s x now).0.participants ≡ s.participants
    unfolding Session.add_input
    participants-add_input s x now = ground arith

    -- For a member, the requests act on the stored session as the session's own method does.
    get_session-donate :
        (m : CoinJoinManager D) (id who : String) (xs : List (TxInput × Clock))
        (s : CoinJoinSession)
        → get_session D m id ≡ some s
        → contains s.participants who ≡ true
        → get_session D (donate m id who xs) id ≡ some (run s (calls gives_input xs))
    unfolding donate run step get_session add_input
    get_session-donate m id who [] s g c = g
    get_session-donate m id who ((x, now) ∷ xs) s g c =
        get_session-donate
          (add_input D finish m id (record { participant_id = who; input = x }) now).0 id who xs
          (Session.add_input s x now).0
          (ground (arith, get-insert_self D m.sessions id (Session.add_input s x now).0))
          (ground (arith, participants-add_input s x now))

    -- One member alone can hand in all the inputs that a session waits for: it goes on to the outputs
    -- with as many inputs as participants, all of them from that member.
    pub one_donor_suffices :
        (m : CoinJoinManager D) (id who : String) (x : TxInput) (now : Clock)
        (xs : List (TxInput × Clock)) (s : CoinJoinSession)
        → get_session D m id ≡ some s
        → contains s.participants who ≡ true
        → s.status ≡ collecting_inputs
        → s.inputs ≡ []
        → suc (length xs) ≡ length s.participants
        → (t : CoinJoinSession) × (get_session D (donate m id who ((x, now) ∷ xs)) id ≡ some t)
          × (t.status ≡ collecting_outputs)
          × (t.participants ≡ s.participants)
          × (t.inputs ≡ x ∷ items xs)
    one_donor_suffices m id who x now xs s g c st e n =
        let full = collect_inputs s x now xs st (omega (arith, ap length e)) in
        (
          run s (calls gives_input ((x, now) ∷ xs)),
          get_session-donate m id who ((x, now) ∷ xs) s g c,
          rw full,
          rw full,
          rw (full, e),
        )
