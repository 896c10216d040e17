-- ===== src/Api/Faucet.antt =====
-- `handle_faucet` of src/main.rs: who asks is checked first, then the claim is decided from what the
-- ledger holds, then the ledger is written.
pub mod Locked
pub mod Money
pub mod Issue
pub mod Race
pub mod Others
pub mod Stale
pub mod Backwards
pub mod Behind
pub mod Answer
pub mod Spec
pub mod Runs
pub mod Daily
pub mod Drain
pub mod Tasks
pub mod Crowd
pub mod Builds
use hancoin.Prelude.{
  ℕ, ◌+◌, ◌-◌, ◌^◌, String, Bool, List, [], ◌∷◌, Option, none, some, ltb, leb, if◌then◌else◌,
}
use hancoin.Machine.{Profile, u64_mod, sub_u64, add_u64, Clock}
use hancoin.Account.{
  Account, default, codes, is_valid_account_id, faucet_cooldown, faucet_daily_limit,
}
use hancoin.Supply.{han_total_supply}
use hancoin.Ledger.{Stores, Ledger, stored}
use hancoin.Api.{
  HancoinError, missing_account_id, missing_signature, invalid_account_id_format,
  invalid_public_key, invalid_signature_format, invalid_signature_data, invalid_signature,
  system_time_error, faucet_cooldown_not_over, total_supply_limit_reached, Outcome, reply, reject,
  panic, ◌>>=◌, ◌>>◌, or_reject, guard, to_array, Json, Crypto, get_str,
}

-- `saturating_add` at `u64`.
abbrev pub saturating_add : ℕ → ℕ → ℕ
saturating_add a b = if ltb (a + b) u64_mod then a + b else u64_mod - 1

-- The fields of the JSON reply that vary, and the amount.
pub record FaucetReply : Type 0 where
  pub balance : ℕ
  pub issued : ℕ

-- The first part: the account that asks, once its signature is found good.
unfoldable pub authenticate : (js : Json) → Crypto → js.Value → Outcome String
authenticate js C req = do
  account_id ← or_reject (get_str js req "account_id") missing_account_id
  signature ← or_reject (get_str js req "signature") missing_signature
  guard (is_valid_account_id account_id) invalid_account_id_format
  public_key_bytes ← or_reject (C.decode account_id) invalid_account_id_format
  key_array ← to_array 32 public_key_bytes
  public_key ← or_reject (C.key_from_bytes key_array) invalid_public_key
  signature_bytes ← or_reject (C.decode signature) invalid_signature_format
  signature_array ← to_array 64 signature_bytes
  parsed ← or_reject (C.signature_from_bytes signature_array) invalid_signature_data
  guard (C.verify public_key (codes "claim_faucet") parsed) invalid_signature
  reply account_id

-- What the second part decides on: the account as it was read, and the new count of issued coins.
pub record Grant : Type 0 where
  pub account : Account
  pub new_issued : ℕ

module _ (S : Stores) where
  -- The account, created in the ledger if it is not there.
  unfoldable pub find_or_create : Ledger S → String → Clock → Account × Ledger S
  find_or_create l account_id created = elim (stored S l account_id) [
    | some account ↦ (account, l)
    | none ↦ (
      default created,
      record l { accounts = S.accounts.insert l.accounts account_id (default created) },
    )
  ]

  -- The tests on the account and on the issued coins.
  unfoldable pub decide : Profile → ℕ → ℕ → Account → Outcome Grant
  decide profile issued now account = elim (sub_u64 profile now account.last_claim) [
    | none ↦ panic
    | some passed ↦
        if ltb passed faucet_cooldown
        then reject faucet_cooldown_not_over
        else elim (add_u64 profile issued faucet_daily_limit) [
          | none ↦ panic
          | some new_issued ↦
              if ltb han_total_supply new_issued
              then reject total_supply_limit_reached
              else reply (record { account = account; new_issued = new_issued })
        ]
  ]

  -- The second part reads the account and the count, and may create the account.
  unfoldable pub read_claim : Profile → Ledger S → String → ℕ → Clock → Outcome Grant × Ledger S
  read_claim profile l account_id now created =
      let r = find_or_create l account_id created in (decide profile l.issued now r.0, r.1)

  -- The third part writes the account and the count, from what the second has read.
  unfoldable pub write_claim : Ledger S → String → ℕ → Grant → FaucetReply × Ledger S
  write_claim l account_id now g =
      let balance : ℕ = saturating_add g.account.balance faucet_daily_limit in
      (
        record { balance = balance; issued = faucet_daily_limit },
        record l {
          accounts =
              S.accounts.insert l.accounts account_id
                (record g.account { balance = balance; last_claim = now });
          issued = g.new_issued;
        },
      )

  -- The second and the third part, with nothing in between.
  unfoldable pub claim : Profile → Ledger S → String → ℕ → Clock → Outcome FaucetReply × Ledger S
  claim profile l account_id now created =
      let r = read_claim profile l account_id now created in
      elim r.0 [
        | reply g ↦ let w = write_claim r.1 account_id now g in (reply w.0, w.1)
        | reject e ↦ (reject e, r.1)
        | panic ↦ (panic, r.1)
      ]

  -- The clock is read once for the claim, and once more for an account that is created.
  unfoldable pub handle_faucet :
      (js : Json)
      → Crypto
      → Profile
      → js.Value
      → Clock
      → Clock
      → Ledger S
      → Outcome FaucetReply × Ledger S
  handle_faucet js C profile req clock created l = elim (authenticate js C req) [
    | reject e ↦ (reject e, l)
    | panic ↦ (panic, l)
    | reply account_id ↦ elim clock [
      | none ↦ (reject system_time_error, l)
      | some now ↦ claim profile l account_id now created
    ]
  ]
