-- ===== src/Coinjoin/Data.antt =====
-- The data of src/coinjoin.rs: the status of a session, its parts and the session itself.
use hancoin.Prelude.{ℕ, String, Bool, List, ◌∷◌, Option, nat_eq, contains, if◌then◌else◌}

pub data CoinJoinStatus : Type 0 where
  waiting collecting_inputs collecting_outputs collecting_signatures : CoinJoinStatus
  broadcasting completed failed timed_out : CoinJoinStatus

-- The derived `PartialEq` of an enum without fields compares the discriminants.
abbrev pub discriminant : CoinJoinStatus → ℕ
discriminant waiting = 0
discriminant collecting_inputs = 1
discriminant collecting_outputs = 2
discriminant collecting_signatures = 3
discriminant broadcasting = 4
discriminant completed = 5
discriminant failed = 6
discriminant timed_out = 7

abbrev pub status_eq : CoinJoinStatus → CoinJoinStatus → Bool
status_eq a b = nat_eq (discriminant a) (discriminant b)

pub record TxInput : Type 0 where
  pub txid : String
  pub vout : ℕ
  pub amount : ℕ
  pub script : String
  pub pubkey : String

pub record TxOutput : Type 0 where
  pub address : String
  pub amount : ℕ

pub record TxSignature : Type 0 where
  pub input_index : ℕ
  pub signature : String
  pub pubkey : String

pub record CoinJoinSession : Type 0 where
  pub id : String
  pub status : CoinJoinStatus
  pub created_at : ℕ
  pub last_active : ℕ
  pub min_participants : ℕ
  pub max_participants : ℕ
  pub target_amount : ℕ
  pub fee_rate : ℕ
  pub timeout : ℕ
  -- a `HashSet`, as a list without repetitions
  pub participants : List String
  pub inputs : List TxInput
  pub outputs : List TxOutput
  pub signatures : List TxSignature
  pub final_txid : Option String

pub record CoinJoinSessionInfo : Type 0 where
  pub id : String
  pub status : CoinJoinStatus
  pub created_at : ℕ
  pub last_active : ℕ
  pub min_participants : ℕ
  pub max_participants : ℕ
  pub target_amount : ℕ
  pub fee_rate : ℕ
  pub timeout : ℕ
  pub participants_count : ℕ
  pub inputs_count : ℕ
  pub outputs_count : ℕ
  pub signatures_count : ℕ
  pub final_txid : Option String

-- `HashSet::insert` on the set of participants.
abbrev pub set_insert : String → List String → List String
set_insert x xs = if contains xs x then xs else x ∷ xs
