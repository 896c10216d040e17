-- ===== src/Coinjoin/Session/Protocol/Accepted.antt =====
-- What a session of src/coinjoin.rs holds, told from the calls that its methods answered with true.
use mathlib.Core.List.{append_assoc, append-nil}
use hancoin.Prelude.{
  ℕ, ◌≡◌, refl, sym, inl, inr, String, Bool, true, false, ◌||◌, List, [], ◌∷◌, ◌++◌, Option, some,
  arith, contains, contains-append, eq_iff, Bool-cases, if◌then◌else◌,
}
use hancoin.Machine.{Clock, secs}
use hancoin.Coinjoin.Data.{TxInput, TxOutput, TxSignature, CoinJoinSession, set_insert}
use hancoin.Coinjoin.Session.{add_participant, add_input, add_output, add_signature, complete, fail}
use hancoin.Coinjoin.Session.Protocol.{
  Call, joins, gives_input, gives_output, signs, completes, fails, step, run,
}

-- What the method answers; `fail` answers nothing, and always does what it is asked.
unfoldable pub accepts : CoinJoinSession → Call × Clock → Bool
accepts s (joins who, now) = (add_participant s who now).1
accepts s (gives_input input, now) = (add_input s input now).1
accepts s (gives_output output, now) = (add_output s output now).1
accepts s (signs sig, now) = (add_signature s sig now).1
accepts s (completes txid, now) = (complete s txid now).1
accepts s (fails, now) = true

-- The calls of a run that are answered with true.
abbrev pub accepted : CoinJoinSession → List (Call × Clock) → List (Call × Clock)
accepted s [] = []
accepted s (c ∷ cs) = let rest = accepted (step s c) cs in if accepts s c then c ∷ rest else rest

-- What a call brings.
abbrev pub joiner : Call → List String
joiner (joins who) = who ∷ []
joiner _ = []

abbrev pub input_of : Call → List TxInput
input_of (gives_input input) = input ∷ []
input_of _ = []

abbrev pub output_of : Call → List TxOutput
output_of (gives_output output) = output ∷ []
output_of _ = []

abbrev pub signature_of : Call → List TxSignature
signature_of (signs sig) = sig ∷ []
signature_of _ = []

abbrev pub txid_of : Option String → Call → Option String
txid_of before (completes txid) = some txid
txid_of before _ = before

-- What all the calls bring, in their order.
module _ {ℓ} {A : Type ℓ} (f : Call → List A) where
  abbrev pub all_of : List (Call × Clock) → List A
  all_of [] = []
  all_of ((c, now) ∷ cs) = f c ++ all_of cs

abbrev pub last_txid : Option String → List (Call × Clock) → Option String
last_txid before [] = before
last_txid before ((c, now) ∷ cs) = last_txid (txid_of before c) cs

abbrev pub last_call : ℕ → List (Call × Clock) → ℕ
last_call before [] = before
last_call before ((c, now) ∷ cs) = last_call (secs now) cs

-- The second session holds what the first does, and then what the calls bring.
pub record IsBrought (s : CoinJoinSession) (cs : List (Call × Clock)) (t : CoinJoinSession)
    : Type 0 where
  pub participants :
      (who : String)
      → contains t.participants who
        ≡ (contains (all_of joiner cs) who || contains s.participants who)
  pub inputs : t.inputs ≡ s.inputs ++ all_of input_of cs
  pub outputs : t.outputs ≡ s.outputs ++ all_of output_of cs
  pub signatures : t.signatures ≡ s.signatures ++ all_of signature_of cs
  pub final_txid : t.final_txid ≡ last_txid s.final_txid cs
  pub last_active : t.last_active ≡ last_call s.last_active cs

IsBrought-nil : (s : CoinJoinSession) → IsBrought s [] s
IsBrought-nil s = record {
  participants = λ who. refl;
  inputs = sym (append-nil s.inputs);
  outputs = sym (append-nil s.outputs);
  signatures = sym (append-nil s.signatures);
  final_txid = refl;
  last_active = refl;
}

-- A call that is refused changes nothing.
step_refused : (s : CoinJoinSession) (c : Call × Clock) → accepts s c ≡ false → step s c ≡ s
unfolding step accepts add_participant add_input add_output add_signature complete
step_refused s (joins who, now) h = ground arith
step_refused s (gives_input input, now) h = ground arith
step_refused s (gives_output output, now) h = ground arith
step_refused s (signs sig, now) h = ground arith
step_refused s (completes txid, now) h = ground arith
step_refused s (fails, now) h = cc

contains-set_insert :
    (x : String) (xs : List String) (w : String)
    → contains (set_insert x xs) w ≡ (contains (x ∷ []) w || contains xs w)
contains-set_insert x xs w = ground (arith, eq_iff x w)

-- A call that is accepted brings what it says, and nothing else.
step_accepted :
    (s : CoinJoinSession) (c : Call × Clock) → accepts s c ≡ true → IsBrought s (c ∷ []) (step s c)
unfolding step accepts add_participant add_input add_output add_signature complete fail
step_accepted s (joins who, now) h = record {
  participants = λ w. ground (arith, contains-set_insert who s.participants w);
  inputs = ground (arith, append-nil s.inputs);
  outputs = ground (arith, append-nil s.outputs);
  signatures = ground (arith, append-nil s.signatures);
  final_txid = ground arith;
  last_active = ground arith;
}
step_accepted s (gives_input input, now) h = ground (arith, IsBrought-nil s)
step_accepted s (gives_output output, now) h = ground (arith, IsBrought-nil s)
step_accepted s (signs sig, now) h = ground (arith, IsBrought-nil s)
step_accepted s (completes txid, now) h = ground (arith, IsBrought-nil s)
step_accepted s (fails, now) h = ground (arith, IsBrought-nil s)

-- Three lists in a row, where the one in the middle came with an empty one.
regroup {ℓ} :
    {A : Type ℓ} (xs ys zs : List A) {us vs : List A}
    → us ≡ xs ++ (ys ++ [])
    → vs ≡ us ++ zs
    → vs ≡ xs ++ (ys ++ zs)
regroup xs ys zs e d = rw (d, e, append-nil ys) (append_assoc xs ys zs)

-- What calls bring one after the other, they bring together.
IsBrought-cons :
    (s t u : CoinJoinSession) (c : Call × Clock) (cs : List (Call × Clock))
    → IsBrought s (c ∷ []) t
    → IsBrought t cs u
    → IsBrought s (c ∷ cs) u
IsBrought-cons s t u c cs a b = record {
  participants = λ w. ground (
    arith,
    a.participants w,
    b.participants w,
    contains-append (joiner c.0) [] w,
    contains-append (joiner c.0) (all_of joiner cs) w,
  );
  inputs = regroup s.inputs (input_of c.0) (all_of input_of cs) a.inputs b.inputs;
  outputs = regroup s.outputs (output_of c.0) (all_of output_of cs) a.outputs b.outputs;
  signatures =
      regroup s.signatures (signature_of c.0) (all_of signature_of cs) a.signatures b.signatures;
  final_txid = ground arith;
  last_active = ground arith;
}

-- Whatever is called on a session, check_timeout aside, it is in the end as if only the accepted calls
-- had been made, those that were answered with true and those of fail. It holds what it held before and
-- what these brought: their participants, and in their order the inputs, outputs and signatures; it
-- has the last of their transactions, and the time of the last of them.
pub run-accepted :
    (s : CoinJoinSession) (cs : List (Call × Clock))
    → (run s (accepted s cs) ≡ run s cs) × IsBrought s (accepted s cs) (run s cs)
unfolding run
run-accepted s [] = (refl, IsBrought-nil s)
run-accepted s (c ∷ cs) =
    let rest = run-accepted (step s c) cs in
    elim (Bool-cases (accepts s c)) [
      | inl taken ↦ rw taken (
        rest.0,
        IsBrought-cons s (step s c) _ c (accepted (step s c) cs) (step_accepted s c taken) rest.1,
      )
      | inr refused ↦ rw (refused, step_refused s c refused) (run-accepted s cs)
    ]
