-- ===== src/Api.antt =====
-- The handlers of src/main.rs, over the errors of src/types.rs: what a handler answers, and what it
-- asks of the crates for JSON, hexadecimal text and signatures.
pub mod Faucet
pub mod Transfer
pub mod Node
use hancoin.Prelude.{
  ℕ, ◌*◌, ◌≡◌, String, Bool, true, false, List, Option, none, some, nat_eq, length, if◌then◌else◌,
}
use hancoin.Account.{codes}

pub data HancoinError : Type 0 where
  missing_account_id missing_signature invalid_account_id_format invalid_public_key : HancoinError
  invalid_signature_format invalid_signature_data invalid_signature system_time_error : HancoinError
  faucet_cooldown_not_over total_supply_limit_reached account_not_found : HancoinError
  invalid_transaction : HancoinError
  session_not_found : String → HancoinError

-- How a handler ends: with a reply, with a rejection, or with a panic of its task.
pub data Outcome {ℓ} (A : Type ℓ) : Type ℓ where
  reply : A → Outcome A
  reject : HancoinError → Outcome A
  panic : Outcome A

infixl 5 ◌>>=◌ ◌>>◌
abbrev pub ◌>>=◌ {ℓ κ} : {A : Type ℓ} {B : Type κ} → Outcome A → (A → Outcome B) → Outcome B
reply a >>= f = f a
reject e >>= f = reject e
panic >>= f = panic

abbrev pub ◌>>◌ {ℓ} : {B : Type ℓ} → Outcome (Unit {0}) → Outcome B → Outcome B
m >> k = m >>= λ _. k

-- `.ok_or_else(|| reject(e))?` and `.map_err(|_| reject(e))?`.
abbrev pub or_reject {ℓ} : {A : Type ℓ} → Option A → HancoinError → Outcome A
or_reject none e = reject e
or_reject (some a) e = reply a

abbrev pub guard : Bool → HancoinError → Outcome (Unit {0})
guard true e = reply tt
guard false e = reject e

-- `.try_into().unwrap()` of a vector to an array of `n` bytes.
abbrev pub to_array : ℕ → List ℕ → Outcome (List ℕ)
to_array n bytes = if nat_eq (length bytes) n then reply bytes else panic

-- `serde_json::Value`, as far as it is read.
pub record Json : Type 1 where
  pub Value : Type 0
  pub get : Value → String → Option Value
  pub as_str : Value → Option String
  pub as_u64 : Value → Option ℕ

-- `hex::decode`, and the keys and signatures of `ed25519_dalek`.
pub record Crypto : Type 1 where
  pub VerifyingKey : Type 0
  pub Signature : Type 0
  pub decode : String → Option (List ℕ)
  pub key_from_bytes : List ℕ → Option VerifyingKey
  pub signature_from_bytes : List ℕ → Option Signature
  pub verify : VerifyingKey → List ℕ → Signature → Bool

-- `hex::decode` takes two digits for each byte, and fails on anything else.
abbrev pub TwoDigits : Crypto → Type 0
TwoDigits C =
    (s : String) (bytes : List ℕ) → C.decode s ≡ some bytes → length (codes s) ≡ 2 * length bytes

module _ (js : Json) where
  -- `.get(key).and_then(|v| v.as_str())`.
  abbrev pub get_str : js.Value → String → Option String
  get_str v key = elim (js.get v key) [ none ↦ none | some x ↦ js.as_str x ]

  abbrev pub get_u64 : js.Value → String → Option ℕ
  get_u64 v key = elim (js.get v key) [ none ↦ none | some x ↦ js.as_u64 x ]
