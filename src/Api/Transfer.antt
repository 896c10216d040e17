-- ===== src/Api/Transfer.antt =====
-- `handle_balance` and `handle_transfer` of src/main.rs. The file of the source ends in the middle of
-- `handle_transfer`, where the signed message is put together: what would follow is the argument
-- `rest`.
use hancoin.Prelude.{
  ℕ, ◌≤◌, ◌≡◌, refl, ◌⊎◌, inl, inr, String, List, some, arith, ltb, length, if◌then◌else◌,
}
use hancoin.Account.{Account}
use hancoin.Ledger.{Stores, Ledger, stored}
use hancoin.Api.{
  account_not_found, invalid_transaction, invalid_account_id_format, invalid_public_key, Outcome,
  reply, reject, panic, ◌>>=◌, or_reject, to_array, Json, Crypto, get_str, get_u64,
}
use hancoin.Api.Faucet.Locked.{Refused}

pub record BalanceReply : Type 0 where
  pub balance : ℕ
  pub last_active : ℕ

pub record TransferRequest : Type 0 where
  pub from : String
  pub to : String
  pub amount : ℕ
  pub signature : String

unfoldable pub parse_transfer : (js : Json) → js.Value → Outcome TransferRequest
parse_transfer js v = do
  from ← or_reject (get_str js v "from") invalid_transaction
  to ← or_reject (get_str js v "to") invalid_transaction
  amount ← or_reject (get_u64 js v "amount") invalid_transaction
  signature ← or_reject (get_str js v "signature") invalid_transaction
  reply (record { from = from; to = to; amount = amount; signature = signature })

module _ (S : Stores) where
  unfoldable pub handle_balance : String → Ledger S → Outcome BalanceReply
  handle_balance account_id l = do
    account ← or_reject (stored S l account_id) account_not_found
    reply (record { balance = account.balance; last_active = account.last_active })

  -- The sender and its key, for a request that may go on.
  unfoldable pub check_transfer :
      (C : Crypto) → TransferRequest → Ledger S → Outcome (Account × C.VerifyingKey)
  check_transfer C t l = do
    from_account ← or_reject (stored S l t.from) account_not_found
    if ltb from_account.balance t.amount then reject invalid_transaction else do
      public_key_bytes ← or_reject (C.decode t.from) invalid_account_id_format
      key_array ← to_array 32 public_key_bytes
      public_key ← or_reject (C.key_from_bytes key_array) invalid_public_key
      reply (from_account, public_key)

  unfoldable pub handle_transfer :
      {A : Type 0}
      → (js : Json) → (C : Crypto)
      → (TransferRequest → Account → C.VerifyingKey → Ledger S → Outcome A × Ledger S)
      → js.Value
      → Ledger S
      → Outcome A × Ledger S
  handle_transfer js C rest v l = elim (parse_transfer js v) [
    | reject e ↦ (reject e, l)
    | panic ↦ (panic, l)
    | reply t ↦ elim (check_transfer C t l) [
      | reject e ↦ (reject e, l)
      | panic ↦ (panic, l)
      | reply (from_account, public_key) ↦ rest t from_account public_key l
    ]
  ]

  check_transfer_lem :
      (C : Crypto) (t : TransferRequest) (l : Ledger S) (a : Account) (k : C.VerifyingKey)
      → check_transfer C t l ≡ reply (a, k)
      → (stored S l t.from ≡ some a)
        × (t.amount ≤ a.balance)
        × ((bytes : List ℕ) × (C.decode t.from ≡ some bytes)
            × (length bytes ≡ 32)
            × (C.key_from_bytes bytes ≡ some k))
  unfolding check_transfer
  check_transfer_lem C t l a k e = ground arith

  module _ (js : Json) (C : Crypto) where
    -- A request that passes the checks: from an account that is there, whose balance covers the
    -- amount and whose name is the text of a key.
    pub record Passes (v : js.Value) (l : Ledger S) : Type 0 where
      pub request : TransferRequest
      pub account : Account
      pub key : C.VerifyingKey
      pub bytes : List ℕ
      pub parsed : parse_transfer js v ≡ reply request
      pub found : stored S l request.from ≡ some account
      pub covered : request.amount ≤ account.balance
      pub decoded : C.decode request.from ≡ some bytes
      pub whole : length bytes ≡ 32
      pub is_key : C.key_from_bytes bytes ≡ some key

  module _ {A : Type 0} (js : Json) (C : Crypto)
      (rest : TransferRequest → Account → C.VerifyingKey → Ledger S → Outcome A × Ledger S) where
    -- How a transfer ends: refused, with the ledger as it was, or with what follows the checks.
    abbrev pub Ends : js.Value → Ledger S → Type 0
    Ends v l =
        (Refused (handle_transfer js C rest v l).0 × ((handle_transfer js C rest v l).1 ≡ l))
        ⊎ ((p : Passes js C v l) × (handle_transfer js C rest v l
              ≡ rest p.request p.account p.key l))

    Ends-checked :
        (v : js.Value) (l : Ledger S) (t : TransferRequest) (o : Outcome (Account × C.VerifyingKey))
        → parse_transfer js v ≡ reply t
        → check_transfer C t l ≡ o
        → Ends v l
    unfolding handle_transfer
    Ends-checked v l t (reject e) p c = inl (rw (p, handle_transfer, c) (tt, refl))
    Ends-checked v l t panic p c = inl (rw (p, handle_transfer, c) (tt, refl))
    Ends-checked v l t (reply (a, k)) p c =
        let f = check_transfer_lem C t l a k c in
        inr (
          record {
            request = t;
            account = a;
            key = k;
            bytes = f.2.0;
            parsed = p;
            found = f.0;
            covered = f.1;
            decoded = f.2.1;
            whole = f.2.2;
            is_key = f.2.3;
          },
          rw (p, handle_transfer, c),
        )

    Ends-parsed :
        (v : js.Value) (l : Ledger S) (o : Outcome TransferRequest)
        → parse_transfer js v ≡ o
        → Ends v l
    unfolding handle_transfer
    Ends-parsed v l (reject e) p = inl (rw (p, handle_transfer) (tt, refl))
    Ends-parsed v l panic p = inl (rw (p, handle_transfer) (tt, refl))
    Ends-parsed v l (reply t) p = Ends-checked v l t _ p refl

    -- Every transfer ends so: what follows the checks gets only requests that pass them.
    pub handle_transfer_lem : (v : js.Value) (l : Ledger S) → Ends v l
    handle_transfer_lem v l = Ends-parsed v l _ refl
