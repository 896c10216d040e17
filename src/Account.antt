-- ===== src/Account.antt =====
-- Accounts and their history, of src/types.rs, and the format of their identifiers.
pub mod History
pub mod Cooldown
use Prim.Native.Char.{code}
use Prim.Native.String
use hancoin.Prelude.{
  ℕ, ◌+◌, ◌-◌, ◌≡◌, String, Bool, true, false, ◌&&◌, ◌||◌, not, List, [], ◌∷◌, ◌++◌, Option, none,
  some, ltb, leb, nat_eq, length, drop, if◌then◌else◌,
}
use hancoin.Machine.{Profile, sub_u64, Clock, secs}

abbrev pub max_tx_history : ℕ
max_tx_history = 100

abbrev pub faucet_cooldown : ℕ
faucet_cooldown = 86400

abbrev pub faucet_daily_limit : ℕ
faucet_daily_limit = 100000

-- The code points of a text.
abbrev pub codes : String → List ℕ
codes String.[] = []
codes (String.◌∷◌ c s) = code c ∷ codes s

abbrev pub in_class : ℕ → ℕ → ℕ → Bool
in_class lo hi c = leb lo c && leb c hi

-- The class [1-9A-HJ-NP-Za-km-z] of the pattern for account identifiers.
unfoldable pub is_base58 : ℕ → Bool
is_base58 c =
    in_class b'1' b'9' c
    || in_class b'A' b'H' c
    || in_class b'J' b'N' c
    || in_class b'P' b'Z' c
    || in_class b'a' b'k' c
    || in_class b'm' b'z' c

abbrev pub all {ℓ} : {A : Type ℓ} → (A → Bool) → List A → Bool
all p [] = true
all p (x ∷ xs) = p x && all p xs

-- A match of ^[1-9A-HJ-NP-Za-km-z]{32,44}$, which spans the whole text.
unfoldable pub is_valid_account_id : String → Bool
unfolding is_base58
is_valid_account_id account_id =
    leb 32 (length (codes account_id))
    && leb (length (codes account_id)) 44
    && all is_base58 (codes account_id)

pub data AccountStatus : Type 0 where
  active frozen restricted : AccountStatus

pub record TxRef : Type 0 where
  pub tx_id : String
  pub timestamp : ℕ
  pub amount : ℕ
  pub is_incoming : Bool

pub record Account : Type 0 where
  pub balance : ℕ
  pub last_claim : ℕ
  pub transactions : List TxRef
  pub created_at : ℕ
  pub last_active : ℕ
  pub nonce : ℕ
  pub status : AccountStatus

-- `Account::default`, at a reading of the clock.
unfoldable pub default : Clock → Account
default now = record {
  balance = 0;
  last_claim = 0;
  transactions = [];
  created_at = secs now;
  last_active = secs now;
  nonce = 0;
  status = active;
}

unfoldable pub update_activity : Account → Clock → Account
update_activity a now = record a { last_active = secs now }

unfoldable pub add_transaction : Account → TxRef → Clock → Account
unfolding update_activity
add_transaction a tx_ref now =
    let kept : List TxRef =
      if leb max_tx_history (length a.transactions)
      then drop 1 a.transactions
      else a.transactions in
    update_activity (record a { transactions = kept ++ tx_ref ∷ [] }) now

-- The answer of `can_claim_faucet`; the message of the error names the seconds to wait.
pub data Claim : Type 0 where
  claimable : Claim
  too_frequent : (wait_time : ℕ) → Claim

-- `none` is the panic of a debug build where a subtraction overflows.
unfoldable pub can_claim_faucet : Profile → Account → Clock → Option Claim
can_claim_faucet profile a now = elim (sub_u64 profile (secs now) a.last_claim) [
  | none ↦ none
  | some passed ↦
      if ltb passed faucet_cooldown
      then some (too_frequent (faucet_cooldown - passed))
      else some claimable
]
