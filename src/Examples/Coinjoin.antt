-- ===== src/Examples/Coinjoin.antt =====
-- Sessions of src/coinjoin.rs at concrete inputs.
use hancoin.Prelude.{
  ℕ, ◌≤◌, ◌<◌, ◌≡◌, ◌↔◌, refl, ◌⊎◌, String, List, [], ◌∷◌, some, arith, length, replicate, All,
  contains,
}
use hancoin.Machine.{Clock}
use hancoin.Coinjoin.Data.{
  waiting, collecting_signatures, broadcasting, completed, timed_out, TxInput, TxOutput,
  TxSignature, CoinJoinSession,
}
use hancoin.Coinjoin.Session.{new, add_participant, add_input}
use hancoin.Coinjoin.Session.Invariant.{IsWellFormed}
use hancoin.Coinjoin.Session.Reach
use hancoin.Coinjoin.Session.Reach.{Reach, here, next, new-Reach-IsWellFormed, reached_transaction}
use hancoin.Coinjoin.Session.Protocol.{Call, joins, gives_input, signs, step, run, run-Reach, calls}
use hancoin.Coinjoin.Session.Protocol.Accepted.{accepts, accepted, IsBrought, run-accepted}
use hancoin.Coinjoin.Session.Protocol.Success.{Parts, AreComplete, script, protocol_completes}
use hancoin.Coinjoin.Session.Table.{Follows, IsTaken}
use hancoin.Coinjoin.Session.Table.Taken.{Follows-iff-IsTaken}
use hancoin.Coinjoin.Session.Faults.{one_signer_suffices}

abbrev pub coin : TxInput
coin = record { txid = "t"; vout = 0; amount = 5; script = "s"; pubkey = "p" }

abbrev payee : TxOutput
payee = record { address = "x"; amount = 5 }

abbrev sig : ℕ → TxSignature
sig i = record { input_index = i; signature = "sig"; pubkey = "p" }

-- A session that asks for two participants, and has no room for them by its other bound.
abbrev fresh : CoinJoinSession
fresh = new "id" 2 1 5 1 60 (some 100)

-- One participant of two: the session waits; the same one again changes nothing but the time.
waits :
    ((add_participant fresh "a" (some 101)).0.status ≡ waiting)
    × ((add_participant (add_participant fresh "a" (some 101)).0 "a" (some 102)).0.participants
        ≡ "a" ∷ [])
unfolding new add_participant
waits = (refl, refl)

joined_one : Reach fresh (add_participant fresh "a" (some 101)).0
joined_one = next here (Reach.joins "a" (some 101) refl)

new-Reach-IsWellFormed_example : IsWellFormed (add_participant fresh "a" (some 101)).0
new-Reach-IsWellFormed_example = new-Reach-IsWellFormed "id" 2 1 5 1 60 (some 100) _ joined_one

abbrev pair : Parts
pair = record {
  who = ("a", some 101);
  others = ("b", some 102) ∷ [];
  input = (coin, some 103);
  inputs = (coin, some 104) ∷ [];
  output = (payee, some 105);
  outputs = (payee, some 106) ∷ [];
  signature = (sig 0, some 107);
  signatures = (sig 1, some 108) ∷ [];
}

pair-AreComplete : AreComplete pair
pair-AreComplete = record {
  fresh = (refl, (refl, tt));
  inputs = refl;
  outputs = refl;
  signatures = refl;
  in_range = omega arith;
}

abbrev paid : CoinJoinSession
paid = run fresh (script pair ("tx", some 109))

protocol_completes_example :
    let t = run (new "id" 2 1 5 1 60 (some 100)) (script pair ("tx", some 109)) in
    (t.status ≡ completed)
    × (t.final_txid ≡ some "tx")
    × (length t.participants ≡ 2)
    × ((who : String) → contains t.participants who ≡ contains ("a" ∷ "b" ∷ []) who)
    × (t.inputs ≡ coin ∷ coin ∷ [])
    × (t.outputs ≡ payee ∷ payee ∷ [])
    × (t.signatures ≡ sig 0 ∷ sig 1 ∷ [])
    × (t.last_active ≡ 109)
protocol_completes_example =
    protocol_completes "id" 1 5 1 60 (some 100) pair "tx" (some 109) pair-AreComplete

reached_transaction_example :
    (0 < length paid.participants)
    × (2 ≤ length paid.participants)
    × ((length paid.participants ≤ 1) ⊎ (length paid.participants ≡ 2))
    × (length paid.inputs ≡ length paid.participants)
    × (length paid.outputs ≡ length paid.participants)
    × (length paid.signatures ≡ length paid.participants)
reached_transaction_example =
    reached_transaction "id" 2 1 5 1 60 (some 100) paid "tx"
      (run-Reach fresh (script pair ("tx", some 109)))
      (protocol_completes "id" 1 5 1 60 (some 100) pair "tx" (some 109) pair-AreComplete).1

-- Two inputs are in, and nothing is signed.
abbrev unsigned : CoinJoinSession
unsigned = record fresh {
  status = collecting_signatures;
  participants = "b" ∷ "a" ∷ [];
  inputs = coin ∷ coin ∷ [];
  outputs = payee ∷ payee ∷ [];
}

one_signer_suffices_example :
    let t = run unsigned (calls signs (replicate 2 (sig 0, some 110))) in
    (t.status ≡ broadcasting)
    × (t.inputs ≡ coin ∷ coin ∷ [])
    × (length t.signatures ≡ length t.inputs)
    × All (λ g. g ≡ sig 0) t.signatures
unfolding new
one_signer_suffices_example =
    one_signer_suffices unsigned (sig 0) (some 110) 1 refl refl refl (omega arith)

abbrev sent : CoinJoinSession
sent = record unsigned { status = broadcasting; signatures = sig 0 ∷ sig 1 ∷ [] }

-- An input comes before its time and a third participant after it; the others are taken.
abbrev mixed : List (Call × Clock)
mixed =
    (gives_input coin, some 101)
    ∷ (joins "a", some 102)
    ∷ (joins "b", some 103)
    ∷ (joins "c", some 104)
    ∷ (gives_input coin, some 105)
    ∷ []

mixed_lem :
    accepted fresh mixed
    ≡ (joins "a", some 102) ∷ (joins "b", some 103) ∷ (gives_input coin, some 105) ∷ []
unfolding accepts step new add_participant add_input
mixed_lem = refl

run-accepted_example :
    (run fresh (accepted fresh mixed) ≡ run fresh mixed)
    × IsBrought fresh (accepted fresh mixed) (run fresh mixed)
run-accepted_example = run-accepted fresh mixed

-- A session that has completed may time out.
Follows-iff-IsTaken_example : Follows completed timed_out ↔ IsTaken completed timed_out
Follows-iff-IsTaken_example = Follows-iff-IsTaken completed timed_out
