-- ===== src/Suite.antt =====
-- The unit tests of src/types.rs and src/ws.rs: a test is true if it passes, and false if one of its
-- assertions fails.
use text.Mathlib.TextPositions.{eq_refl}
use hancoin.Prelude.{
  ℕ, suc, ◌≡◌, ◌<◌, ◌↔◌, refl, String, Bool, true, false, not, ◌&&◌, List, [], ◌∷◌, Option, none,
  some, arith, length, ltb, nat_eq, ◌==◌, Bool-cases, inl, inr,
}
use hancoin.Machine.{Clock, secs}
use hancoin.Stores.{DashSet, get-insert_self}
use hancoin.Text.{Text}
use hancoin.Account.{Account, TxRef, default, update_activity, add_transaction}
use hancoin.Ledger.{
  Stores, Ledger, new, lookup, read_cache, load, scan_one, scan_cache, load_misses,
  get_accounts_batch,
}
use hancoin.Ws.Token.{Decode, JwtValidator, validate_token, validate_token_exact, revoke_token}
use hancoin.Ws.Secrets

-- `account` is created and updated at two readings of the clock.
unfoldable test_account_activity : Clock → Clock → Bool
test_account_activity created updated =
    let account : Account = default created in
    let old_active : ℕ = account.last_active in
    let account' : Account = update_activity account updated in ltb old_active account'.last_active

-- An index out of range panics.
unfoldable test_tx_ref_management : Clock → Clock → Bool
test_tx_ref_management created updated =
    let tx_ref : TxRef = record {
      tx_id = "test123";
      timestamp = 123456789;
      amount = 100;
      is_incoming = true;
    } in
    let account : Account = add_transaction (default created) tx_ref updated in
    nat_eq (length account.transactions) 1
    && elim account.transactions [ [] ↦ false | first ∷ _ ↦ first.tx_id == "test123" ]

-- The number of keys.
abbrev key_count {ℓ} : {V : Type ℓ} → List (String × V) → ℕ
key_count [] = 0
key_count ((k, v) ∷ m) = elim (lookup m k) [ none ↦ suc (key_count m) | some w ↦ key_count m ]

unfoldable test_ledger_cache : Stores → Clock → Bool
test_ledger_cache S created =
    let ledger : Ledger S = new S in
    let account : Account = default created in
    let stored : Ledger S = record ledger {
      accounts = S.accounts.insert ledger.accounts "test_account" account;
    } in
    let batch = (get_accounts_batch S stored ("test_account" ∷ [])).0 in
    nat_eq (key_count batch) 1 && elim (lookup batch "test_account") [
      | none ↦ false
      | some found ↦ nat_eq found.balance account.balance
    ]

-- The validator reads its secrets from the environment of the test.
unfoldable test_jwt_validator : (D : DashSet) → Decode → Option String → Option String → Bool
test_jwt_validator D decode current previous =
    let validator : JwtValidator D = Secrets.new D current previous in
    let revoked : JwtValidator D = revoke_token D validator "some.token.here" in
    not (validate_token D decode validator "invalid.token.here")
    && not (validate_token D decode revoked "some.token.here")

-- The test of the activity passes exactly if the clock has gone on to another second meanwhile.
test_account_activity_exact :
    (created updated : Clock)
    → (test_account_activity created updated ≡ true) ↔ (secs created < secs updated)
unfolding test_account_activity default update_activity
test_account_activity_exact created updated = (λ h. ground arith, λ h. ground arith)

test_tx_ref_management_passes :
    (created updated : Clock) → test_tx_ref_management created updated ≡ true
unfolding test_tx_ref_management default add_transaction
test_tx_ref_management_passes created updated = refl

test_ledger_cache_passes : (S : Stores) (created : Clock) → test_ledger_cache S created ≡ true
unfolding test_ledger_cache new default get_accounts_batch scan_cache scan_one read_cache
    load_misses load
test_ledger_cache_passes S created = ground (
  arith,
  S.cache.get_value S.cache.empty "test_account",
  S.cache.peek_empty "test_account",
  get-insert_self S.accounts S.accounts.empty "test_account" (default created),
)

-- A text that no secret decodes is not a token.
undecoded_is_invalid :
    (D : DashSet) (decode : Decode) (v : JwtValidator D) (token : String)
    → ((secret : Text) → decode token secret ≡ none)
    → validate_token D decode v token ≡ false
undecoded_is_invalid D decode v token h = elim (Bool-cases (validate_token D decode v token)) [
  | inl good ↦
      let g = (validate_token_exact D decode v token).0 good in
      absurd (ground (arith, g.decoded, h g.secret))
  | inr bad ↦ bad
]

revoked_is_invalid :
    (D : DashSet) (decode : Decode) (v : JwtValidator D) (token : String)
    → validate_token D decode (revoke_token D v token) token ≡ false
unfolding validate_token revoke_token
revoked_is_invalid D decode v token =
    ground (arith, D.contains_insert v.revoked_tokens token token, eq_refl token)

test_jwt_validator_passes :
    (D : DashSet) (decode : Decode) (current previous : Option String)
    → ((secret : Text) → decode "invalid.token.here" secret ≡ none)
    → test_jwt_validator D decode current previous ≡ true
unfolding test_jwt_validator
test_jwt_validator_passes D decode current previous h = ground (
  arith,
  undecoded_is_invalid D decode (Secrets.new D current previous) "invalid.token.here" h,
  revoked_is_invalid D decode (Secrets.new D current previous) "some.token.here",
)
