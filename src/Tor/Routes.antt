-- ===== src/Tor/Routes.antt =====
-- Which way `start_p2p` of src/p2p.rs connects.
use hancoin.Prelude.{
  ℕ, ◌≡◌, ◌≢◌, refl, ap, true, false, Option, none, some, arith, if◌then◌else◌, Bool-cases,
  Option-cases, inl, inr, ◌⊎◌, ◌==◌, eq_iff, String,
}
use hancoin.Text.{Text, Lacks}
use hancoin.Tor.{
  TorConfig, TorConnector, new_connector, is_enabled, ConnectedPoint, addr_str, ConnectError, err,
  standard, tunnel, is_onion_address, default, configure, unwrap_text, connect, via_tor, transport,
}
use hancoin.Tor.Ports.{rsplit_once-Lacks}

module _ {Addr Stream : Type 0} (parse_addr : Text → Option Addr)
    (socks : Addr → Text → ℕ → Option Stream) where
  -- With Tor every connection is asked of the proxy, whatever its address is; without Tor none is.
  transport_lem :
      (config : TorConfig) (point : ConnectedPoint)
      → transport parse_addr socks config point ≡ (
          if config.enabled
          then tunnel (connect parse_addr socks (new_connector config) (addr_str point))
          else standard)
  unfolding transport via_tor is_enabled
  transport_lem config point = elim (Bool-cases config.enabled) [
    | inl on ↦ elim (Bool-cases (is_onion_address (addr_str point))) [
      | inl onion ↦ ground arith
      | inr plain ↦ ground arith
    ]
    | inr off ↦ ground arith
  ]

  -- What `main` reads from the environment decides: every connection that the transport hands on is
  -- one that was asked of the proxy that is set, or of the one on port 9050, if ENABLE_TOR is "true";
  -- and none is if it is not.
  pub transport-configure :
      (enable proxy : Option String) (point : ConnectedPoint)
      → ((enable ≡ some "true")
          × (transport parse_addr socks (configure enable proxy) point
              ≡ tunnel (
                  connect parse_addr socks
                    (new_connector (record {
                      enabled = true;
                      proxy_addr = unwrap_text proxy "127.0.0.1:9050";
                      only_onion = false;
                    }))
                    (addr_str point))))
        ⊎ ((enable ≢ some "true")
            × (transport parse_addr socks (configure enable proxy) point ≡ standard))
  unfolding configure
  transport-configure none proxy point = inr ((λ e. cc), transport_lem default point)
  transport-configure (some enable) proxy point = elim (Bool-cases (enable == "true")) [
    | inl on ↦ inl (ap some ((eq_iff enable "true").0 on), rw on (transport_lem _ point))
    | inr off ↦ inr (ground (arith, eq_iff enable "true"), rw off (transport_lem default point))
  ]

  -- An address with no colon is refused, whatever the proxy is.
  connect-Lacks :
      (tor : TorConnector) (addr : Text)
      → Lacks b':' addr
      → (e : ConnectError) × (connect parse_addr socks tor addr ≡ err e)
  unfolding connect
  connect-Lacks tor addr h = elim (Option-cases (parse_addr tor.config.proxy_addr)) [
    | inl bad ↦ (ConnectError.invalid_proxy, rw (bad, connect) refl)
    | inr (proxy, good) ↦
        (ConnectError.invalid_address, rw (good, rsplit_once-Lacks addr h, connect) refl)
  ]

  -- With Tor no connection succeeds whose address has no colon: neither one that comes in, nor one to
  -- an address as libp2p writes them for IPv4 and TCP.
  transport-Lacks :
      (config : TorConfig) (point : ConnectedPoint)
      → config.enabled ≡ true
      → Lacks b':' (addr_str point)
      → (e : ConnectError) × (transport parse_addr socks config point ≡ tunnel (err e))
  transport-Lacks config point on h =
      let r = connect-Lacks (new_connector config) (addr_str point) h in
      (r.0, ground (arith, transport_lem config point, r.1))

  transport-listener :
      (config : TorConfig)
      → config.enabled ≡ true
      → (e : ConnectError) × (transport parse_addr socks config ConnectedPoint.listener
          ≡ tunnel (err e))
  transport-listener config on = transport-Lacks config ConnectedPoint.listener on (ground arith)
