-- ===== src/Coinjoin/Session/Protocol/Collect.antt =====
-- Each collecting phase of a session of src/coinjoin.rs ends once enough has come in.
use mathlib.Core.List.{append_assoc}
use hancoin.Prelude.{
  suc, ◌+◌, ◌<◌, ◌≡◌, refl, ap, ◌∙◌, String, true, false, ◌||◌, List, [], ◌∷◌, ◌++◌, arith, length,
  length-snoc, All, contains,
}
use hancoin.Machine.{Clock, secs}
use hancoin.Coinjoin.Data.{
  waiting, collecting_inputs, collecting_outputs, collecting_signatures, broadcasting, TxInput,
  TxOutput, TxSignature, CoinJoinSession,
}
use hancoin.Coinjoin.Session.{add_participant, add_input, add_output, add_signature}
use hancoin.Coinjoin.Session.Invariant.{InRange}
use hancoin.Coinjoin.Session.Protocol.{
  joins, gives_input, gives_output, signs, step, run, after, calls, items, last_time,
}

-- One more input, where the session still waits for others.
add_input_more :
    (s : CoinJoinSession) (x : TxInput) (now : Clock)
    → s.status ≡ collecting_inputs
    → suc (length s.inputs) < length s.participants
    → add_input s x now ≡ (record s { inputs = s.inputs ++ x ∷ []; last_active = secs now }, true)
unfolding add_input
add_input_more s x now st n = ground (arith, length-snoc s.inputs x)

-- As many inputs as are missing take the session from inputs to outputs.
pub collect_inputs :
    (s : CoinJoinSession) (x : TxInput) (now : Clock) (xs : List (TxInput × Clock))
    → s.status ≡ collecting_inputs
    → length s.inputs + suc (length xs) ≡ length s.participants
    → run s (calls gives_input ((x, now) ∷ xs)) ≡ record s {
      inputs = s.inputs ++ x ∷ items xs;
      last_active = last_time (secs now) xs;
      status = collecting_outputs;
    }
unfolding run step
collect_inputs s x now [] st n = unfold add_input in ground (arith, length-snoc s.inputs x)
collect_inputs s x now ((y, later) ∷ xs) st n =
    after (calls gives_input ((y, later) ∷ xs)) (add_input_more s x now st (omega arith))
    ∙ collect_inputs (record s { inputs = s.inputs ++ x ∷ []; last_active = secs now }) y later xs
        st (omega (arith, length-snoc s.inputs x))
    ∙ ap
        (λ (l : List TxInput). record s {
          inputs = l;
          last_active = last_time (secs later) xs;
          status = collecting_outputs;
        })
        (append_assoc s.inputs (x ∷ []) (y ∷ items xs))

add_output_more :
    (s : CoinJoinSession) (x : TxOutput) (now : Clock)
    → s.status ≡ collecting_outputs
    → suc (length s.outputs) < length s.participants
    → add_output s x now
      ≡ (record s { outputs = s.outputs ++ x ∷ []; last_active = secs now }, true)
unfolding add_output
add_output_more s x now st n = ground (arith, length-snoc s.outputs x)

-- As many outputs as are missing take the session from outputs to signatures.
pub collect_outputs :
    (s : CoinJoinSession) (x : TxOutput) (now : Clock) (xs : List (TxOutput × Clock))
    → s.status ≡ collecting_outputs
    → length s.outputs + suc (length xs) ≡ length s.participants
    → run s (calls gives_output ((x, now) ∷ xs)) ≡ record s {
      outputs = s.outputs ++ x ∷ items xs;
      last_active = last_time (secs now) xs;
      status = collecting_signatures;
    }
unfolding run step
collect_outputs s x now [] st n = unfold add_output in ground (arith, length-snoc s.outputs x)
collect_outputs s x now ((y, later) ∷ xs) st n =
    after (calls gives_output ((y, later) ∷ xs)) (add_output_more s x now st (omega arith))
    ∙ collect_outputs (record s { outputs = s.outputs ++ x ∷ []; last_active = secs now }) y later
        xs st (omega (arith, length-snoc s.outputs x))
    ∙ ap
        (λ (l : List TxOutput). record s {
          outputs = l;
          last_active = last_time (secs later) xs;
          status = collecting_signatures;
        })
        (append_assoc s.outputs (x ∷ []) (y ∷ items xs))

add_signature_more :
    (s : CoinJoinSession) (x : TxSignature) (now : Clock)
    → s.status ≡ collecting_signatures
    → InRange (length s.inputs) x
    → suc (length s.signatures) < length s.inputs
    → add_signature s x now
      ≡ (record s { signatures = s.signatures ++ x ∷ []; last_active = secs now }, true)
unfolding add_signature
add_signature_more s x now st h n = ground (arith, length-snoc s.signatures x)

-- As many signatures as are missing, each for some input, take the session to broadcasting.
pub collect_signatures :
    (s : CoinJoinSession) (x : TxSignature) (now : Clock) (xs : List (TxSignature × Clock))
    → s.status ≡ collecting_signatures
    → All (InRange (length s.inputs)) (x ∷ items xs)
    → length s.signatures + suc (length xs) ≡ length s.inputs
    → run s (calls signs ((x, now) ∷ xs)) ≡ record s {
      signatures = s.signatures ++ x ∷ items xs;
      last_active = last_time (secs now) xs;
      status = broadcasting;
    }
unfolding run step
collect_signatures s x now [] st h n =
    unfold add_signature in ground (arith, length-snoc s.signatures x)
collect_signatures s x now ((y, later) ∷ xs) st h n =
    after (calls signs ((y, later) ∷ xs)) (add_signature_more s x now st h.0 (omega arith))
    ∙ collect_signatures (record s { signatures = s.signatures ++ x ∷ []; last_active = secs now })
        y later xs st h.1 (omega (arith, length-snoc s.signatures x))
    ∙ ap
        (λ (l : List TxSignature). record s {
          signatures = l;
          last_active = last_time (secs later) xs;
          status = broadcasting;
        })
        (append_assoc s.signatures (x ∷ []) (y ∷ items xs))

-- The set after new members come in one by one.
abbrev pub added : List String → List String → List String
added [] ps = ps
added (x ∷ xs) ps = added xs (x ∷ ps)

-- Nobody in the list is in the set, or stands in the list twice.
abbrev pub Fresh : List String → List String → Type 0
Fresh [] ps = Unit
Fresh (x ∷ xs) ps = (contains ps x ≡ false) × Fresh xs (x ∷ ps)

pub length-added : (xs ps : List String) → length (added xs ps) ≡ length xs + length ps
length-added [] ps = omega arith
length-added (x ∷ xs) ps = omega (arith, length-added xs (x ∷ ps))

pub contains-added :
    (xs ps : List String) (w : String) → contains (added xs ps) w ≡ (contains xs w || contains ps w)
contains-added [] ps w = refl
contains-added (x ∷ xs) ps w = ground (arith, contains-added xs (x ∷ ps) w)

add_participant_more :
    (s : CoinJoinSession) (x : String) (now : Clock)
    → s.status ≡ waiting
    → contains s.participants x ≡ false
    → suc (length s.participants) < s.min_participants
    → add_participant s x now
      ≡ (record s { participants = x ∷ s.participants; last_active = secs now }, true)
unfolding add_participant
add_participant_more s x now st h n = ground arith

-- As many new participants as are missing take the session from waiting to inputs.
pub collect_participants :
    (s : CoinJoinSession) (x : String) (now : Clock) (xs : List (String × Clock))
    → s.status ≡ waiting
    → Fresh (x ∷ items xs) s.participants
    → length s.participants + suc (length xs) ≡ s.min_participants
    → run s (calls joins ((x, now) ∷ xs)) ≡ record s {
      participants = added (items xs) (x ∷ s.participants);
      last_active = last_time (secs now) xs;
      status = collecting_inputs;
    }
unfolding run step
collect_participants s x now [] st h n = unfold add_participant in ground arith
collect_participants s x now ((y, later) ∷ xs) st h n =
    after (calls joins ((y, later) ∷ xs)) (add_participant_more s x now st h.0 (omega arith))
    ∙ collect_participants (record s { participants = x ∷ s.participants; last_active = secs now })
        y later xs st h.1 (omega arith)
