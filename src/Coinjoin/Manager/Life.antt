-- ===== src/Coinjoin/Manager/Life.antt =====
-- The life of a `CoinJoinManager` of src/coinjoin.rs: requests in any order, with the turns of the
-- cleaning task between them.
use hancoin.Prelude.{
  ℕ, ◌≡◌, refl, inl, inr, ap, ◌∙◌, String, true, false, List, [], ◌∷◌, some, arith, ◌==◌, eq_iff,
  Bool-cases,
}
use hancoin.Machine.{Clock}
use hancoin.Stores.{DashMap, get-insert_ne}
use hancoin.Coinjoin.Data.{CoinJoinSession}
use hancoin.Coinjoin.Session
use hancoin.Coinjoin.Session.Reach.{Reach, here, next, gives_input}
use hancoin.Coinjoin.Manager.{
  CoinJoinManager, CoinJoinRequest, InputRequest, CleanupEvent, Answer, new_manager, create_session,
  get_session, add_input, cleanup_turn,
}
use hancoin.Coinjoin.Manager.Laws.{
  IsManaged, create_session-IsManaged, add_input-IsManaged, get_session-create_session,
  add_input_cases,
}

-- What may happen to a manager, with the clock readings and the fresh identifiers.
pub data Call : Type 0 where
  creates : (req : CoinJoinRequest) (uuid : String) (now later : Clock) → Call
  asks_input : (session_id : String) (req : InputRequest) (now : Clock) → Call
  cleans : CleanupEvent → Call

-- No call creates a session under an identifier.
abbrev pub IsFresh : String → List Call → Type 0
IsFresh id [] = Unit
IsFresh id (creates req uuid now later ∷ calls) = ((uuid == id) ≡ false) × IsFresh id calls
IsFresh id (_ ∷ calls) = IsFresh id calls

module _ (D : DashMap CoinJoinSession) {A : Type 0} (finish : CoinJoinSession → Answer A) where
  unfoldable pub apply : CoinJoinManager D → Call → CoinJoinManager D
  apply m (creates req uuid now later) = (create_session D m req uuid now later).0
  apply m (asks_input session_id req now) = (add_input D finish m session_id req now).0
  apply m (cleans event) = (cleanup_turn D m event).0

  unfoldable pub apply_all : CoinJoinManager D → List Call → CoinJoinManager D
  apply_all m [] = m
  apply_all m (c ∷ calls) = apply_all (apply m c) calls

  pub apply-IsManaged : (m : CoinJoinManager D) (c : Call) → IsManaged D m → IsManaged D (apply m c)
  unfolding apply cleanup_turn
  apply-IsManaged m (creates req uuid now later) v =
      create_session-IsManaged D m req uuid now later v
  apply-IsManaged m (asks_input session_id req now) v =
      add_input-IsManaged D finish m session_id req now v
  apply-IsManaged m (cleans CleanupEvent.tick) v = v
  apply-IsManaged m (cleans CleanupEvent.closed) v = v

  pub apply_all-IsManaged :
      (m : CoinJoinManager D) (calls : List Call) → IsManaged D m → IsManaged D (apply_all m calls)
  unfolding apply_all
  apply_all-IsManaged m [] v = v
  apply_all-IsManaged m (c ∷ calls) v =
      apply_all-IsManaged (apply m c) calls (apply-IsManaged m c v)

  -- Whatever happens to a new manager, each of its sessions is well formed and stands under its own
  -- identifier.
  pub new_manager-IsManaged :
      (session_timeout : ℕ) (calls : List Call)
      → IsManaged D (apply_all (new_manager D session_timeout) calls)
  unfolding new_manager get_session
  new_manager-IsManaged session_timeout calls =
      apply_all-IsManaged (new_manager D session_timeout) calls
        (record { at_id = λ k s e. ground (arith, D.get_empty k) })

  -- A session is found, as one that its methods make of what it was.
  abbrev pub IsKept : CoinJoinManager D → String → CoinJoinSession → Type 0
  IsKept m id s = (t : CoinJoinSession) × (get_session D m id ≡ some t) × Reach s t

  add_input-stored :
      (m : CoinJoinManager D) (session_id id : String) (req : InputRequest) (now : Clock)
      (s t : CoinJoinSession)
      → ((add_input D finish m session_id req now).0 ≡ record m {
        sessions = D.insert m.sessions session_id (Session.add_input t req.input now).0;
      })
      → (session_id == id) ≡ true
      → get_session D m session_id ≡ some t
      → get_session D m id ≡ some s
      → get_session D (add_input D finish m session_id req now).0 id
        ≡ some (Session.add_input s req.input now).0
  unfolding get_session
  add_input-stored m session_id id req now s t same named g e = rw same (
      ground (
        arith,
        D.get_insert m.sessions session_id id (Session.add_input t req.input now).0,
        eq_iff session_id id,
      ))

  apply-IsKept :
      (m : CoinJoinManager D) (c : Call) (id : String) (s : CoinJoinSession)
      → IsFresh id (c ∷ [])
      → get_session D m id ≡ some s
      → IsKept (apply m c) id s
  unfolding apply cleanup_turn get_session
  apply-IsKept m (creates req uuid now later) id s f e =
      (s, (get_session-create_session D m req uuid now later).4 id f.0 ∙ e, here)
  apply-IsKept m (asks_input session_id req now) id s f e =
      elim (add_input_cases D finish m session_id req now) [
        | inl (_, same) ↦ (s, ap (λ r. get_session D r.0 id) same ∙ e, here)
        | inr (inl (_, _, _, same)) ↦ (s, ap (λ r. get_session D r.0 id) same ∙ e, here)
        | inr (inr (t, g, _, same, _)) ↦ elim (Bool-cases (session_id == id)) [
          | inl named ↦ (
            (Session.add_input s req.input now).0,
            add_input-stored m session_id id req now s t same named g e,
            next here (gives_input req.input now refl),
          )
          | inr other ↦ (
            s,
            ap (λ k. get_session D k id) same
                ∙ (get-insert_ne D m.sessions session_id id (Session.add_input t req.input now).0
                      other
                    ∙ e),
            here,
          )
        ]
      ]
  apply-IsKept m (cleans CleanupEvent.tick) id s f e = (s, e, here)
  apply-IsKept m (cleans CleanupEvent.closed) id s f e = (s, e, here)

  Reach-trans : {s t u : CoinJoinSession} → Reach s t → Reach t u → Reach s u
  Reach-trans r here = r
  Reach-trans r (next q st) = next (Reach-trans r q) st

  IsFresh-head :
      (c : Call) (calls : List Call) (id : String)
      → IsFresh id (c ∷ calls)
      → IsFresh id (c ∷ []) × IsFresh id calls
  IsFresh-head (creates req uuid now later) calls id f = ((f.0, tt), f.1)
  IsFresh-head (asks_input session_id req now) calls id f = (tt, f)
  IsFresh-head (cleans event) calls id f = (tt, f)

  -- If identifiers are fresh, a session of the manager is found ever after, whatever the clock says,
  -- as a session that its own methods make of what it was; none is ever removed.
  pub session_is_kept :
      (m : CoinJoinManager D) (calls : List Call) (id : String) (s : CoinJoinSession)
      → IsFresh id calls
      → get_session D m id ≡ some s
      → (t : CoinJoinSession) × (get_session D (apply_all m calls) id ≡ some t) × Reach s t
  unfolding apply_all
  session_is_kept m [] id s f e = (s, e, here)
  session_is_kept m (c ∷ calls) id s f e =
      let h = IsFresh-head c calls id f in
      let a = apply-IsKept m c id s h.0 e in
      let r = session_is_kept (apply m c) calls id a.0 h.1 a.1 in (r.0, r.1, Reach-trans a.2 r.2)
