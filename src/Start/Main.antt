-- ===== src/Start/Main.antt =====
-- `main` of src/main.rs as a whole: how it comes to serve its clients, or to a panic.
use hancoin.Prelude.{
  ◌≡◌, String, [], false, arith, Option, none, some, ◌⊎◌, inl, inr, refl, sym, subst, true,
  Bool-cases,
}
use hancoin.Machine.{Profile}
use hancoin.Stores.{DashMap}
use hancoin.Ledger.{Stores}
use hancoin.Api.{Json, Crypto}
use hancoin.Api.Node.{Rest}
use hancoin.Coinjoin.Data.{CoinJoinSession}
use hancoin.Coinjoin.Manager.{Answer}
use hancoin.P2p.Peers.{P2PConfig}
use hancoin.P2p.Launch.{Libp2p, Network, Launch, running, failed, panicked, subscribed, start_p2p}
use hancoin.P2p.Received.{IsLaunched, start_p2p-IsLaunched}
use hancoin.Start.{
  Node, start, handle_all, Serving, serves, panics, p2p_config, main, Host, server_port, serve_on,
}
use hancoin.Start.Sound.{IsSound, Keeps, start-IsSound}

-- Why `main` can panic: `init_crypto` does, libp2p cannot set up its gossip, or the port is not free.
abbrev pub CannotServe : Host → (L : Libp2p) → L.Keypair → P2PConfig → Type 0
CannotServe host L id_keys config =
    (host.init_crypto ≡ false)
    ⊎ ((subscribed L id_keys config ≡ none) ⊎ (host.bind server_port ≡ false))

module _ (S : Stores) (D : DashMap CoinJoinSession) (host : Host) (L : Libp2p) (id_keys : L.Keypair)
    (enable_tor tor_proxy : Option String) where
  abbrev Ends : Serving S D L → Node S D → Type 0
  Ends o node =
      ((o ≡ panics) × CannotServe host L id_keys (p2p_config S D enable_tor tor_proxy))
      ⊎ ((network : Option (Network L)) × (o ≡ serves node network))

  serve_on-Ends :
      (node : Node S D) (network : Option (Network L)) → Ends (serve_on S D host node network) node
  unfolding serve_on
  serve_on-Ends node network = elim (Bool-cases (host.bind server_port)) [
    | inl free ↦ rw free (inr (network, refl))
    | inr taken ↦ rw taken (inl (refl, inr (inr refl)))
  ]

  abbrev after_launch : Node S D → Launch L → Serving S D L
  after_launch node (running net) = serve_on S D host node (some net)
  after_launch node (failed e) = serve_on S D host node none
  after_launch node panicked = panics

  launched :
      (profile : Profile) (node : Node S D) (o : Launch L)
      → IsLaunched L profile id_keys (p2p_config S D enable_tor tor_proxy) [] o
      → Ends (after_launch node o) node
  launched profile node panicked v = inl (refl, inr (inl v.2))
  launched profile node (failed x) v = serve_on-Ends node none
  launched profile node (running net) v = serve_on-Ends node (some net)

  main-after_launch :
      (node : Node S D) (o : Launch L)
      → host.init_crypto ≡ true
      → start S D enable_tor tor_proxy ≡ some node
      → start_p2p L id_keys (some (p2p_config S D enable_tor tor_proxy)) ≡ o
      → main S D host L id_keys enable_tor tor_proxy ≡ after_launch node o
  unfolding main serve_on
  main-after_launch node panicked i h e = rw (i, h, e) refl
  main-after_launch node (failed x) i h e = rw (i, h, e) refl
  main-after_launch node (running net) i h e = rw (i, h, e) refl

  main-Ends :
      (profile : Profile) (node : Node S D) (o : Launch L)
      → start S D enable_tor tor_proxy ≡ some node
      → start_p2p L id_keys (some (p2p_config S D enable_tor tor_proxy)) ≡ o
      → IsLaunched L profile id_keys (p2p_config S D enable_tor tor_proxy) [] o
      → Ends (main S D host L id_keys enable_tor tor_proxy) node
  unfolding main
  main-Ends profile node o h e v = elim (Bool-cases host.init_crypto) [
    | inr bad ↦ rw bad (inl (refl, inl refl))
    | inl good ↦
        subst (λ x. Ends x node) (sym (main-after_launch node o good h e))
          (launched profile node o v)
  ]

-- `main` panics only where `init_crypto` does, where libp2p cannot set up its gossip, or where the port
-- of the server is not free. Else it serves, with a network or after an error without one, whatever the
-- environment says, and starts with its coins backed and its sessions well formed.
pub main-IsSound :
    (S : Stores) (D : DashMap CoinJoinSession) (js : Json) (C : Crypto) {A : Type 0}
    (finish : CoinJoinSession → Answer A) (profile : Profile) (rest : Rest S js C)
    → Keeps S D js C finish profile rest
    → (host : Host) (L : Libp2p) (id_keys : L.Keypair) (enable_tor tor_proxy : Option String)
    → ((main S D host L id_keys enable_tor tor_proxy ≡ panics)
        × CannotServe host L id_keys (p2p_config S D enable_tor tor_proxy))
      ⊎ ((node : Node S D) × ((network : Option (Network L)) × ((main S D host L id_keys enable_tor
                  tor_proxy
                ≡ serves node network)
              × IsSound S D node)))
unfolding handle_all
main-IsSound S D js C finish profile rest keeps host L id_keys enable_tor tor_proxy =
    let s = start-IsSound S D js C finish profile rest keeps enable_tor tor_proxy [] in
    elim (main-Ends S D host L id_keys enable_tor tor_proxy profile s.0 _ s.1 refl (
      start_p2p-IsLaunched L profile id_keys (some (p2p_config S D enable_tor tor_proxy)) []
        (omega arith))) [ inl why ↦ inl why | inr (network, e) ↦ inr (s.0, (network, (e, s.2))) ]
