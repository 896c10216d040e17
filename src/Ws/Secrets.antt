-- ===== src/Ws/Secrets.antt =====
-- `JwtValidator::new` of src/ws.rs: the secrets from the environment, and the validator from then on.
use hancoin.Prelude.{
  ◌≡◌, refl, ap, ap₂, ◌∙◌, String, true, false, subst, sym, List, [], ◌∷◌, ◌++◌, Option, none, some,
  arith, map, All, if◌then◌else◌, ◌↔◌, ◌||◌, contains, eq_iff, false,
}
use hancoin.Stores.{DashSet}
use hancoin.Account.{codes}
use hancoin.Text.{Text, is_empty, trim, trim_start, trim_end, split, Lacks}
use text.Mathlib.Text.{starts_with}
use hancoin.Ws.Token.{
  JwtValidator, Decode, Claims, Among, there, revoke_token, validate_token, validate_token_exact,
}

abbrev pub default_secret : Text
default_secret = codes "development_secret_key_do_not_use_in_production"

-- `.filter(|s| !s.is_empty())`.
abbrev pub keep_filled : List Text → List Text
keep_filled [] = []
keep_filled (s ∷ ss) = if is_empty s then keep_filled ss else s ∷ keep_filled ss

-- The old secrets, from the value of a variable.
unfoldable pub parse_secrets : Text → List Text
parse_secrets value = keep_filled (map trim (split b',' value))

abbrev unwrap_text : Option String → Text → Text
unwrap_text none d = d
unwrap_text (some s) d = codes s

-- `None` is a variable that is not set.
unfoldable pub new : (D : DashSet) → Option String → Option String → JwtValidator D
new D current previous = record {
  current_secret = unwrap_text current default_secret;
  previous_secrets = parse_secrets (unwrap_text previous []);
  revoked_tokens = D.empty;
  allowed_issuers = "hancoin-server" ∷ [];
}

-- A secret as the variable can carry it: some text with no comma, and no space at its ends.
pub record IsCarried (s : Text) : Type 0 where
  pub filled : is_empty s ≡ false
  pub lacks : Lacks b',' s
  pub trimmed : trim s ≡ s

-- Texts with commas between them.
unfoldable pub join : List Text → Text
join [] = []
join (s ∷ []) = s
join (s ∷ t ∷ ss) = s ++ b',' ∷ join (t ∷ ss)

split-Lacks : (s : Text) → Lacks b',' s → split b',' s ≡ s ∷ []
unfolding split
split-Lacks [] h = refl
split-Lacks (c ∷ s) h = ground (arith, split-Lacks s h.1)

split-append : (s rest : Text) → Lacks b',' s → split b',' (s ++ b',' ∷ rest) ≡ s ∷ split b',' rest
unfolding split
split-append [] rest h = refl
split-append (c ∷ s) rest h = ground (arith, split-append s rest h.1)

split-join :
    (s : Text) (ss : List Text) → All IsCarried (s ∷ ss) → split b',' (join (s ∷ ss)) ≡ s ∷ ss
unfolding join
split-join s [] h = split-Lacks s h.0.lacks
split-join s (t ∷ ss) h =
    split-append s (join (t ∷ ss)) h.0.lacks ∙ ap (◌∷◌ s) (split-join t ss h.1)

keep_filled-trim : (ss : List Text) → All IsCarried ss → keep_filled (map trim ss) ≡ ss
keep_filled-trim [] h = refl
keep_filled-trim (s ∷ ss) h = rw (h.0.trimmed) (ground (arith, h.0.filled, keep_filled-trim ss h.1))

-- Secrets that are set as the old ones, with commas between them, are the old secrets of the new
-- validator, in their order.
parse_secrets-join : (ss : List Text) → All IsCarried ss → parse_secrets (join ss) ≡ ss
unfolding parse_secrets trim trim_start trim_end split join
parse_secrets-join [] h = refl
parse_secrets-join (s ∷ ss) h = rw (split-join s ss h) (keep_filled-trim (s ∷ ss) h)

-- Tokens are revoked one after another.
unfoldable pub revoke_all : (D : DashSet) → JwtValidator D → List String → JwtValidator D
revoke_all D v [] = v
revoke_all D v (token ∷ tokens) = revoke_all D (revoke_token D v token) tokens

revoke_all_lem :
    (D : DashSet) (v : JwtValidator D) (tokens : List String) (token : String)
    → let w = revoke_all D v tokens in
      (w.current_secret ≡ v.current_secret)
      × (w.previous_secrets ≡ v.previous_secrets)
      × (w.allowed_issuers ≡ v.allowed_issuers)
      × (D.contains w.revoked_tokens token
          ≡ (contains tokens token || D.contains v.revoked_tokens token))
unfolding revoke_all revoke_token
revoke_all_lem D v [] token = (refl, refl, refl, refl)
revoke_all_lem D v (t ∷ tokens) token =
    let rest = revoke_all_lem D (revoke_token D v t) tokens token in
    (rest.0, rest.1, rest.2, ground (arith, rest.3, D.contains_insert v.revoked_tokens t token))

module _ (D : DashSet) (decode : Decode) where
  -- A token that one of the old secrets decodes to claims of the server on a user is accepted by a
  -- new validator, if that secret is among those that were set with commas between them.
  pub validate_token-new :
      (current : Option String) (value token : String) (ss : List Text) (secret : Text)
      (claims : Claims)
      → All IsCarried ss
      → codes value ≡ join ss
      → Among secret ss
      → decode token secret ≡ some claims
      → claims.iss ≡ "hancoin-server"
      → starts_with claims.sub "user-" ≡ true
      → validate_token D decode (new D current (some value)) token ≡ true
  unfolding new
  validate_token-new current value token ss secret claims h e a d i u =
      (validate_token_exact D decode (new D current (some value)) token).1 (record {
        kept = D.contains_empty token;
        secret = secret;
        known = there (subst (Among secret) (sym (ap parse_secrets e ∙ parse_secrets-join ss h)) a);
        claims = claims;
        decoded = d;
        issuer = rw i refl;
        user = u;
      })

  -- The secrets that a token may be signed with, from the two variables.
  abbrev pub secrets_of : Option String → Option String → List Text
  secrets_of current previous =
      unwrap_text current default_secret ∷ parse_secrets (unwrap_text previous [])

  -- A token that one of the secrets decodes to claims of the server on a user.
  pub record IsSigned (current previous : Option String) (token : String) : Type 0 where
    pub secret : Text
    pub known : Among secret (secrets_of current previous)
    pub claims : Claims
    pub decoded : decode token secret ≡ some claims
    pub issuer : claims.iss ≡ "hancoin-server"
    pub user : starts_with claims.sub "user-" ≡ true

  contains-none :
      (tokens : List String) (token : String)
      → (contains tokens token || D.contains D.empty token) ≡ contains tokens token
  contains-none tokens token = ground (arith, D.contains_empty token)

  contains-server :
      (issuers : List String) (iss : String)
      → issuers ≡ "hancoin-server" ∷ []
      → (contains issuers iss ≡ true) ↔ (iss ≡ "hancoin-server")
  contains-server issuers iss e = rw e (ground (arith, eq_iff "hancoin-server" iss))

  -- From its start on, whatever tokens are revoked meanwhile, the validator accepts a token exactly if
  -- it is none of these, and one of the secrets of the environment decodes it to claims of the server
  -- on a user.
  pub validate_token-revoke_all :
      (current previous : Option String) (tokens : List String) (token : String)
      → (validate_token D decode (revoke_all D (new D current previous) tokens) token ≡ true)
        ↔ ((contains tokens token ≡ false) × IsSigned current previous token)
  unfolding new
  validate_token-revoke_all current previous tokens token =
      let r = revoke_all_lem D (new D current previous) tokens token in
      let x = validate_token_exact D decode (revoke_all D (new D current previous) tokens) token in
      let secrets = ap₂ ◌∷◌ r.0 r.1 in
      let revoked = r.3 ∙ contains-none tokens token in
      (
        (λ e.
            let g = x.0 e in
            (
              sym revoked ∙ g.kept,
              record {
                secret = g.secret;
                known = subst (Among g.secret) secrets g.known;
                claims = g.claims;
                decoded = g.decoded;
                issuer = (contains-server _ g.claims.iss r.2).0 g.issuer;
                user = g.user;
              },
            )),
        (λ h. x.1 (record {
          kept = revoked ∙ h.0;
          secret = h.1.secret;
          known = subst (Among h.1.secret) (sym secrets) h.1.known;
          claims = h.1.claims;
          decoded = h.1.decoded;
          issuer = (contains-server _ h.1.claims.iss r.2).1 h.1.issuer;
          user = h.1.user;
        })),
      )
