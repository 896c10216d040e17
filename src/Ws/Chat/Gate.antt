-- ===== src/Ws/Chat/Gate.antt =====
-- Who gets a task of `handle_ws` by `chat_routes` of src/ws.rs.
use hancoin.Prelude.{
  ℕ, ◌≡◌, ◌<◌, refl, String, Option, none, some, ◌⊎◌, inl, inr, ◌∷◌, Bool-cases, arith, leb,
}
use hancoin.Machine.{Profile, add_u64-some}
use hancoin.Stores.{DashSet}
use hancoin.Ws.Token.{Decode, JwtValidator, validate_token, IsGood, validate_token_exact}
use hancoin.Ws.Socket.{max_connections, enter}
use hancoin.Ws.Chat.{Server, arrived, apply, request}

arrived-live :
    (profile : Profile) (server : Server) (now : ℕ)
    → ((arrived profile server now).live ≡ server.live)
      ⊎ ((server.state.active_connections < max_connections)
          × ((arrived profile server now).live ≡ server.started ∷ server.live))
unfolding arrived enter
arrived-live profile server now =
    elim (Bool-cases (leb max_connections server.state.active_connections)) [
      | inl full ↦ inl (rw (full, arrived) refl)
      | inr free ↦ inr (
        ground arith,
        rw (free, add_u64-some profile server.state.active_connections 1 (ground arith), arrived)
            refl,
      )
    ]

module _ (D : DashSet) (decode : Decode) where
  -- A request either starts no task, or starts one; then it has a token that is not revoked, that one
  -- of the secrets decodes to claims of an allowed issuer on a user, and the counter of connections is
  -- below 1000.
  pub apply-request :
      (profile : Profile) (v : JwtValidator D) (param : Option String) (now : ℕ) (server : Server)
      → ((apply profile server (request D decode v param now)).live ≡ server.live)
        ⊎ ((token : String) × (param ≡ some token)
            × IsGood D decode v token
            × (server.state.active_connections < max_connections)
            × ((apply profile server (request D decode v param now)).live
                ≡ server.started ∷ server.live))
  unfolding apply request
  apply-request profile v none now server = inl refl
  apply-request profile v (some token) now server =
      elim (Bool-cases (validate_token D decode v token)) [
        | inl good ↦ elim (arrived-live profile server now) [
          | inl same ↦ inl (rw (good, apply, request) same)
          | inr started ↦ inr (
            token,
            refl,
            (validate_token_exact D decode v token).0 good,
            started.0,
            rw (good, apply, request) started.1,
          )
        ]
        | inr bad ↦ inl (rw (bad, apply, request) refl)
      ]
