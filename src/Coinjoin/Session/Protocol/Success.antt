-- ===== src/Coinjoin/Session/Protocol/Success.antt =====
-- The whole protocol of src/coinjoin.rs, from a new session to a recorded transaction.
use hancoin.Prelude.{
  ℕ, suc, ◌≡◌, refl, ap, subst, ◌∙◌, String, List, [], ◌∷◌, ◌++◌, some, arith, length, All,
  contains,
}
use hancoin.Machine.{Clock, secs}
use hancoin.Coinjoin.Data.{
  collecting_inputs, collecting_outputs, collecting_signatures, broadcasting, completed, TxInput,
  TxOutput, TxSignature, CoinJoinSession,
}
use hancoin.Coinjoin.Session.{new, complete}
use hancoin.Coinjoin.Session.Invariant.{InRange}
use hancoin.Coinjoin.Session.Protocol.{
  Call, joins, gives_input, gives_output, signs, completes, step, run, run_then, calls, items,
  last_time,
}
use hancoin.Coinjoin.Session.Protocol.Collect.{
  collect_inputs, collect_outputs, collect_signatures, collect_participants, added, Fresh,
  length-added, contains-added,
}

-- Somebody's part in each phase, and the parts of the others.
pub record Parts : Type 0 where
  pub who : String × Clock
  pub others : List (String × Clock)
  pub input : TxInput × Clock
  pub inputs : List (TxInput × Clock)
  pub output : TxOutput × Clock
  pub outputs : List (TxOutput × Clock)
  pub signature : TxSignature × Clock
  pub signatures : List (TxSignature × Clock)

abbrev pub names : Parts → List String
names p = p.who.0 ∷ items p.others

-- Everybody is new, there is one input, output and signature for each, and each signature is for
-- one of the inputs.
pub record AreComplete (p : Parts) : Type 0 where
  pub fresh : Fresh (names p) []
  pub inputs : length p.inputs ≡ length p.others
  pub outputs : length p.outputs ≡ length p.others
  pub signatures : length p.signatures ≡ length p.others
  pub in_range : All (InRange (suc (length p.others))) (p.signature.0 ∷ items p.signatures)

abbrev pub script : Parts → String × Clock → List (Call × Clock)
script p (txid, now) =
    calls joins (p.who ∷ p.others)
    ++ (calls gives_input (p.input ∷ p.inputs)
        ++ (calls gives_output (p.output ∷ p.outputs)
            ++ (calls signs (p.signature ∷ p.signatures) ++ (completes txid, now) ∷ [])))

pub length-items {ℓ} : {A : Type ℓ} (xs : List (A × Clock)) → length (items xs) ≡ length xs
length-items [] = refl
length-items ((a, now) ∷ xs) = ap suc (length-items xs)

-- The session after each phase, from the one before.
abbrev joined : Parts → CoinJoinSession → CoinJoinSession
joined p s = record s {
  participants = added (items p.others) (p.who.0 ∷ []);
  last_active = last_time (secs p.who.1) p.others;
  status = collecting_inputs;
}

abbrev funded : Parts → CoinJoinSession → CoinJoinSession
funded p s = record s {
  inputs = p.input.0 ∷ items p.inputs;
  last_active = last_time (secs p.input.1) p.inputs;
  status = collecting_outputs;
}

abbrev addressed : Parts → CoinJoinSession → CoinJoinSession
addressed p s = record s {
  outputs = p.output.0 ∷ items p.outputs;
  last_active = last_time (secs p.output.1) p.outputs;
  status = collecting_signatures;
}

abbrev signed : Parts → CoinJoinSession → CoinJoinSession
signed p s = record s {
  signatures = p.signature.0 ∷ items p.signatures;
  last_active = last_time (secs p.signature.1) p.signatures;
  status = broadcasting;
}

module _ (uuid : String) (most target fee timeout : ℕ) (start : Clock) (p : Parts) where
  abbrev begun : CoinJoinSession
  begun = new uuid (suc (length p.others)) most target fee timeout start

  run-begun : AreComplete p → run begun (calls joins (p.who ∷ p.others)) ≡ joined p begun
  unfolding new
  run-begun c = collect_participants begun p.who.0 p.who.1 p.others refl c.fresh (omega arith)

  run-joined :
      AreComplete p
      → run (joined p begun) (calls gives_input (p.input ∷ p.inputs)) ≡ funded p (joined p begun)
  unfolding new
  run-joined c =
      collect_inputs (joined p begun) p.input.0 p.input.1 p.inputs refl (
        omega
          (arith, c.inputs, length-added (items p.others) (p.who.0 ∷ []), length-items p.others))

  run-funded :
      AreComplete p
      → run (funded p (joined p begun)) (calls gives_output (p.output ∷ p.outputs))
        ≡ addressed p (funded p (joined p begun))
  unfolding new
  run-funded c = collect_outputs (funded p (joined p begun)) p.output.0 p.output.1 p.outputs refl (
      omega (arith, c.outputs, length-added (items p.others) (p.who.0 ∷ []), length-items p.others))

  run-addressed :
      AreComplete p
      → run (addressed p (funded p (joined p begun))) (calls signs (p.signature ∷ p.signatures))
        ≡ signed p (addressed p (funded p (joined p begun)))
  unfolding new
  run-addressed c =
      collect_signatures (addressed p (funded p (joined p begun))) p.signature.0 p.signature.1
        p.signatures refl
        (subst (λ n. All (InRange n) (p.signature.0 ∷ items p.signatures))
          (omega (arith, c.inputs, length-items p.inputs)) c.in_range)
        (omega (arith, c.inputs, c.signatures, length-items p.inputs))

  finished :
      (txid : String) (now : Clock)
      → AreComplete p
      → run begun (script p (txid, now))
        ≡ (complete (signed p (addressed p (funded p (joined p begun)))) txid now).0
  unfolding run step
  finished txid now c =
      run_then begun (calls joins (p.who ∷ p.others)) _ (run-begun c)
      ∙ run_then _ (calls gives_input (p.input ∷ p.inputs)) _ (run-joined c)
      ∙ run_then _ (calls gives_output (p.output ∷ p.outputs)) _ (run-funded c)
      ∙ run_then _ (calls signs (p.signature ∷ p.signatures)) _ (run-addressed c)

  -- A session that asks for as many participants as there are, each with an input, an output and a
  -- signature for some input, ends completed, with exactly these data.
  pub protocol_completes :
      (txid : String) (now : Clock)
      → AreComplete p
      → let t =
          run
            (new uuid (suc (length p.others)) most target fee timeout start)
            (script p (txid, now)) in
        (t.status ≡ completed)
        × (t.final_txid ≡ some txid)
        × (length t.participants ≡ suc (length p.others))
        × ((who : String) → contains t.participants who ≡ contains (names p) who)
        × (t.inputs ≡ p.input.0 ∷ items p.inputs)
        × (t.outputs ≡ p.output.0 ∷ items p.outputs)
        × (t.signatures ≡ p.signature.0 ∷ items p.signatures)
        × (t.last_active ≡ secs now)
  unfolding complete
  protocol_completes txid now c = rw (finished txid now c) (
    refl,
    refl,
    omega (arith, length-added (items p.others) (p.who.0 ∷ []), length-items p.others),
    (λ w. ground (arith, contains-added (items p.others) (p.who.0 ∷ []) w)),
    refl,
    refl,
    refl,
    refl,
  )
