-- ===== src/Coinjoin/Session/Invariant.antt =====
-- The invariant of a CoinJoin session, kept by every method of src/coinjoin.rs.
use hancoin.Prelude.{
  ℕ, ◌≤◌, ◌<◌, ◌≡◌, ◌⊎◌, String, Bool, List, [], ◌∷◌, ◌++◌, Option, none, some, arith, length,
  length-snoc, All, All-append, Distinct,
}
use hancoin.Machine.{Profile, Clock}
use hancoin.Coinjoin.Data.{
  CoinJoinStatus, waiting, collecting_inputs, collecting_outputs, collecting_signatures,
  broadcasting, completed, failed, timed_out, TxInput, TxOutput, TxSignature, CoinJoinSession,
  set_insert,
}
use hancoin.Coinjoin.Session.{
  new, add_participant, add_input, add_output, add_signature, complete, fail, check_timeout,
}

-- What each status says of the numbers of participants, inputs, outputs and signatures.
abbrev pub Counts : CoinJoinStatus → (least people ins outs sigs : ℕ) → Type 0
Counts waiting m n i o g = ((n ≡ 0) ⊎ (n < m)) × (i ≡ 0) × (o ≡ 0) × (g ≡ 0)
Counts collecting_inputs m n i o g = (m ≤ n) × (i < n) × (o ≡ 0) × (g ≡ 0)
Counts collecting_outputs m n i o g = (m ≤ n) × (i ≡ n) × (o < n) × (g ≡ 0)
Counts collecting_signatures m n i o g = (m ≤ n) × (i ≡ n) × (o ≡ n) × (g < n)
Counts broadcasting m n i o g = (0 < n) × (m ≤ n) × (i ≡ n) × (o ≡ n) × (g ≡ n)
Counts completed m n i o g = (0 < n) × (m ≤ n) × (i ≡ n) × (o ≡ n) × (g ≡ n)
Counts failed m n i o g = (i ≤ n) × (o ≤ i) × (g ≤ o)
Counts timed_out m n i o g = (i ≤ n) × (o ≤ i) × (g ≤ o)

-- A transaction is recorded only where everything has been collected.
abbrev pub Recorded : Option String → (least people ins outs sigs : ℕ) → Type 0
Recorded none m n i o g = Unit
Recorded (some txid) m n i o g = (0 < n) × (m ≤ n) × (i ≡ n) × (o ≡ n) × (g ≡ n)

abbrev pub InRange : ℕ → TxSignature → Type 0
InRange n s = s.input_index < n

pub record IsWellFormed (s : CoinJoinSession) : Type 0 where
  pub distinct : Distinct s.participants
  pub counts :
      Counts s.status s.min_participants
        (length s.participants)
        (length s.inputs)
        (length s.outputs)
        (length s.signatures)
  pub recorded :
      Recorded s.final_txid s.min_participants
        (length s.participants)
        (length s.inputs)
        (length s.outputs)
        (length s.signatures)
  pub bounded : (length s.participants ≤ 1) ⊎ (length s.participants ≤ s.min_participants)
  pub signed : All (InRange (length s.inputs)) s.signatures

pub new-IsWellFormed :
    (uuid : String) (least most target fee timeout : ℕ) (now : Clock)
    → IsWellFormed (new uuid least most target fee timeout now)
unfolding new
new-IsWellFormed uuid least most target fee timeout now = ground arith

set_insert-Distinct : (x : String) (xs : List String) → Distinct xs → Distinct (set_insert x xs)
set_insert-Distinct x xs d = ground arith

length-set_insert : (x : String) (xs : List String) → 0 < length (set_insert x xs)
length-set_insert x [] = omega arith
length-set_insert x (y ∷ xs) = ground arith

All-InRange_mono :
    (m n : ℕ) (xs : List TxSignature) → m ≤ n → All (InRange m) xs → All (InRange n) xs
All-InRange_mono m n [] h a = tt
All-InRange_mono m n (x ∷ xs) h a = (omega arith, All-InRange_mono m n xs h a.1)

pub add_participant-IsWellFormed :
    (s : CoinJoinSession) (who : String) (now : Clock)
    → IsWellFormed s
    → IsWellFormed (add_participant s who now).0
unfolding add_participant
add_participant-IsWellFormed s who now v = ground (arith, length-set_insert who s.participants)

pub add_input-IsWellFormed :
    (s : CoinJoinSession) (input : TxInput) (now : Clock)
    → IsWellFormed s
    → IsWellFormed (add_input s input now).0
unfolding add_input
add_input-IsWellFormed s input now v = ground (
  arith,
  length-snoc s.inputs input,
  All-InRange_mono (length s.inputs) (length (s.inputs ++ input ∷ [])) s.signatures,
)

pub add_output-IsWellFormed :
    (s : CoinJoinSession) (output : TxOutput) (now : Clock)
    → IsWellFormed s
    → IsWellFormed (add_output s output now).0
unfolding add_output
add_output-IsWellFormed s output now v = ground (arith, length-snoc s.outputs output)

pub add_signature-IsWellFormed :
    (s : CoinJoinSession) (signature : TxSignature) (now : Clock)
    → IsWellFormed s
    → IsWellFormed (add_signature s signature now).0
unfolding add_signature
add_signature-IsWellFormed s signature now v = ground (
  arith,
  length-snoc s.signatures signature,
  All-append (InRange (length s.inputs)) s.signatures (signature ∷ []) v.signed,
)

pub complete-IsWellFormed :
    (s : CoinJoinSession) (txid : String) (now : Clock)
    → IsWellFormed s
    → IsWellFormed (complete s txid now).0
unfolding complete
complete-IsWellFormed s txid now v = ground arith

pub fail-IsWellFormed :
    (s : CoinJoinSession) (now : Clock) → IsWellFormed s → IsWellFormed (fail s now)
unfolding fail
fail-IsWellFormed s now v = ground arith

pub check_timeout-IsWellFormed :
    (profile : Profile) (s : CoinJoinSession) (now : Clock) (r : CoinJoinSession × Bool)
    → check_timeout profile s now ≡ some r
    → IsWellFormed s
    → IsWellFormed r.0
unfolding check_timeout
check_timeout-IsWellFormed profile s now r e v = ground arith
