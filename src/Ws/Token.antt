-- ===== src/Ws/Token.antt =====
-- `JwtValidator` of src/ws.rs. Decoding a token with a secret is the crate jsonwebtoken's: it gives the
-- claims of a token that is signed with the secret, in its time.
use hancoin.Prelude.{
  ◌≡◌, refl, sym, ◌∙◌, ◌↔◌, inl, inr, String, Bool, true, false, not, List, [], ◌∷◌, Option, none,
  some, arith, contains, ◌==◌, Bool-cases, if◌then◌else◌, ℕ,
}
use text.Mathlib.Text.{starts_with}
use hancoin.Stores.{DashSet}
use hancoin.Text.{Text}

pub record Claims : Type 0 where
  pub iss : String
  pub sub : String
  pub exp : ℕ
  pub iat : ℕ
  pub jti : String
  pub roles : List String

abbrev pub Decode : Type 0
Decode = String → Text → Option Claims

-- Somewhere in a list.
pub data Among (s : Text) : List Text → Type 0 where
  here : {ss : List Text} → Among s (s ∷ ss)
  there : {t : Text} {ss : List Text} → Among s ss → Among s (t ∷ ss)

module _ (D : DashSet) where
  pub record JwtValidator : Type 0 where
    pub current_secret : Text
    pub previous_secrets : List Text
    pub revoked_tokens : D.Set
    pub allowed_issuers : List String

  module _ (decode : Decode) where
    unfoldable pub try_validate : JwtValidator → String → Text → Bool
    try_validate v token secret = elim (decode token secret) [
      | none ↦ false
      | some claims ↦
          if not (contains v.allowed_issuers claims.iss)
          then false
          else if not (starts_with claims.sub "user-")
          then false
          else true
    ]

    -- The loop over the old secrets.
    unfoldable pub try_previous : JwtValidator → String → List Text → Bool
    try_previous v token [] = false
    try_previous v token (secret ∷ secrets) =
        if try_validate v token secret then true else try_previous v token secrets

    unfoldable pub validate_token : JwtValidator → String → Bool
    validate_token v token =
        if D.contains v.revoked_tokens token
        then false
        else if try_validate v token v.current_secret
        then true
        else try_previous v token v.previous_secrets

  unfoldable pub revoke_token : JwtValidator → String → JwtValidator
  revoke_token v token = record v { revoked_tokens = D.insert v.revoked_tokens token }

  module _ (decode : Decode) where
    -- Why a token is good: it was not revoked, and one of the secrets gives it claims of an allowed
    -- issuer on a user.
    pub record IsGood (v : JwtValidator) (token : String) : Type 0 where
      pub kept : D.contains v.revoked_tokens token ≡ false
      pub secret : Text
      pub known : Among secret (v.current_secret ∷ v.previous_secrets)
      pub claims : Claims
      pub decoded : decode token secret ≡ some claims
      pub issuer : contains v.allowed_issuers claims.iss ≡ true
      pub user : starts_with claims.sub "user-" ≡ true

    try_validate_lem :
        (v : JwtValidator) (token : String) (secret : Text)
        → try_validate decode v token secret ≡ true
        → (c : Claims) × (decode token secret ≡ some c)
          × (contains v.allowed_issuers c.iss ≡ true)
          × (starts_with c.sub "user-" ≡ true)
    unfolding try_validate
    try_validate_lem v token secret e = ground arith

    try_validate-true :
        (v : JwtValidator) (token : String) (secret : Text) (c : Claims)
        → decode token secret ≡ some c
        → contains v.allowed_issuers c.iss ≡ true
        → starts_with c.sub "user-" ≡ true
        → try_validate decode v token secret ≡ true
    unfolding try_validate
    try_validate-true v token secret c e i u = rw (e, try_validate) (rw i (rw u refl))

    try_previous_lem :
        (v : JwtValidator) (token : String) (secrets : List Text)
        → try_previous decode v token secrets ≡ true
        → (secret : Text) × Among secret secrets × (try_validate decode v token secret ≡ true)
    unfolding try_previous
    try_previous_lem v token [] e = cc
    try_previous_lem v token (secret ∷ secrets) e =
        elim (Bool-cases (try_validate decode v token secret)) [
          | inl good ↦ (secret, here, good)
          | inr bad ↦
              let r = try_previous_lem v token secrets (ground arith) in (r.0, there r.1, r.2)
        ]

    try_previous-true :
        (v : JwtValidator) (token : String) (secret : Text) {secrets : List Text}
        → Among secret secrets
        → try_validate decode v token secret ≡ true
        → try_previous decode v token secrets ≡ true
    unfolding try_previous
    try_previous-true v token secret here e = ground arith
    try_previous-true v token secret (there m) e =
        ground (arith, try_previous-true v token secret m e)

    -- The validator takes the new secret first and the old ones after it.
    validate_token-previous :
        (v : JwtValidator) (token : String)
        → D.contains v.revoked_tokens token ≡ false
        → validate_token decode v token
          ≡ try_previous decode v token (v.current_secret ∷ v.previous_secrets)
    unfolding validate_token try_previous
    validate_token-previous v token k = ground arith

    validate_token-kept :
        (v : JwtValidator) (token : String)
        → validate_token decode v token ≡ true
        → D.contains v.revoked_tokens token ≡ false
    unfolding validate_token
    validate_token-kept v token e = ground arith

    -- A token is accepted exactly if it was not revoked and the new secret or one of the old ones
    -- decodes it to claims of an allowed issuer on a user.
    pub validate_token_exact :
        (v : JwtValidator) (token : String)
        → (validate_token decode v token ≡ true) ↔ IsGood v token
    validate_token_exact v token = (
      (λ e.
          let kept = validate_token-kept v token e in
          let r =
            try_previous_lem v token (v.current_secret ∷ v.previous_secrets)
              (sym (validate_token-previous v token kept) ∙ e) in
          let c = try_validate_lem v token r.0 r.2 in
          record {
            kept = kept;
            secret = r.0;
            known = r.1;
            claims = c.0;
            decoded = c.1;
            issuer = c.2;
            user = c.3;
          }),
      (λ g.
          validate_token-previous v token g.kept
          ∙ try_previous-true v token g.secret g.known
              (try_validate-true v token g.secret g.claims g.decoded g.issuer g.user)),
    )

    try_validate-revoke_token :
        (v : JwtValidator) (gone token : String) (secret : Text)
        → try_validate decode (revoke_token v gone) token secret
          ≡ try_validate decode v token secret
    unfolding try_validate revoke_token
    try_validate-revoke_token v gone token secret = refl

    try_previous-revoke_token :
        (v : JwtValidator) (gone token : String) (secrets : List Text)
        → try_previous decode (revoke_token v gone) token secrets
          ≡ try_previous decode v token secrets
    unfolding try_previous
    try_previous-revoke_token v gone token [] = refl
    try_previous-revoke_token v gone token (secret ∷ secrets) = ground (
      arith,
      try_validate-revoke_token v gone token secret,
      try_previous-revoke_token v gone token secrets,
    )

    -- A revoked token is refused from then on, and nothing else changes.
    validate_token-revoke_token :
        (v : JwtValidator) (gone token : String)
        → validate_token decode (revoke_token v gone) token
          ≡ (if gone == token then false else validate_token decode v token)
    unfolding validate_token
    validate_token-revoke_token v gone token =
        unfold revoke_token in
        ground (
          arith,
          D.contains_insert v.revoked_tokens gone token,
          try_validate-revoke_token v gone token v.current_secret,
          try_previous-revoke_token v gone token v.previous_secrets,
        )
