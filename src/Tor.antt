-- ===== src/Tor.antt =====
-- src/tor.rs: the connector for Tor, and the choice between Tor and plain TCP in `start_p2p` of
-- src/p2p.rs. Parsing the proxy's address, and the SOCKS5 connection, are other code's.
pub mod Ports
pub mod Routes
use hancoin.Prelude.{
  ℕ, ◌+◌, ◌*◌, ◌-◌, ◌^◌, ◌≡◌, refl, Bool, true, false, ◌||◌, ◌&&◌, List, [], ◌∷◌, ◌++◌, Option,
  none, some, String, ◌==◌, leb, ltb, nat_eq, if◌then◌else◌,
}
use hancoin.Account.{codes}
use hancoin.Text.{Text, is_empty, rsplit_once}

pub record TorConfig : Type 0 where
  pub enabled : Bool
  pub proxy_addr : Text
  pub only_onion : Bool

abbrev pub default : TorConfig
default = record { enabled = false; proxy_addr = codes "127.0.0.1:9050"; only_onion = false }

abbrev pub unwrap_text : Option String → String → Text
unwrap_text none d = codes d
unwrap_text (some s) d = codes s

-- The settings that `main` takes from the variables ENABLE_TOR and TOR_PROXY; `none` is not set.
unfoldable pub configure : Option String → Option String → TorConfig
configure none proxy = default
configure (some enable) proxy =
    if enable == "true"
    then record default { enabled = true; proxy_addr = unwrap_text proxy "127.0.0.1:9050" }
    else default

-- The connector keeps the settings that it is made with.
pub record TorConnector : Type 0 where
  pub config : TorConfig

abbrev pub new_connector : TorConfig → TorConnector
new_connector config = record { config = config }

unfoldable pub is_enabled : TorConnector → Bool
is_enabled tor = tor.config.enabled

-- `str::starts_with` and `str::contains`.
unfoldable pub begins : Text → Text → Bool
begins s [] = true
begins [] (d ∷ ds) = false
begins (c ∷ s) (d ∷ ds) = nat_eq c d && begins s ds

unfoldable pub has : Text → Text → Bool
has [] part = is_empty part
has (c ∷ s) part = begins (c ∷ s) part || has s part

unfoldable pub is_onion_address : Text → Bool
is_onion_address addr = has addr (codes ".onion:")

-- Decimal digits onto what was read before.
unfoldable pub read_digits : ℕ → Text → Option ℕ
read_digits acc [] = some acc
read_digits acc (c ∷ s) = if leb 48 c && leb c 57 then read_digits (acc * 10 + (c - 48)) s else none

abbrev pub drop_plus : Text → Text
drop_plus [] = []
drop_plus (c ∷ s) = if nat_eq c b'+' then s else c ∷ s

-- `str::parse::<u16>`: a plus sign may come first, then at least one digit.
unfoldable pub parse_u16 : Text → Option ℕ
parse_u16 s =
    let rest = drop_plus s in
    if is_empty rest then none else elim (read_digits 0 rest) [
      | none ↦ none
      | some n ↦ if ltb n (2 ^ 16) then some n else none
    ]

pub data ConnectError : Type 0 where
  invalid_proxy invalid_port invalid_address connection_refused : ConnectError

pub data Result (A : Type 0) : Type 0 where
  ok : A → Result A
  err : ConnectError → Result A

-- The two ends of a connection: the side that dials knows an address.
pub data ConnectedPoint : Type 0 where
  dialer : (address : Text) → ConnectedPoint
  listener : ConnectedPoint

abbrev pub addr_str : ConnectedPoint → Text
addr_str (dialer address) = address
addr_str listener = codes "listener"

-- What `start_p2p` makes of a TCP connection that libp2p has opened: it stays as it is, or in its
-- place another one is opened, past the proxy or through it.
pub data Link (Stream : Type 0) : Type 0 where
  standard direct : Link Stream
  tunnel : Result Stream → Link Stream

module _ {Addr Stream : Type 0} (parse_addr : Text → Option Addr)
    (socks : Addr → Text → ℕ → Option Stream) where
  abbrev pub dial : Addr → Text → ℕ → Result Stream
  dial proxy host port = elim (socks proxy host port) [
    | none ↦ err connection_refused
    | some stream ↦ ok stream
  ]

  unfoldable pub connect_to : Addr → Text → Text → Result Stream
  connect_to proxy host port = elim (parse_u16 port) [
    | none ↦ err invalid_port
    | some p ↦ dial proxy host p
  ]

  unfoldable pub connect : TorConnector → Text → Result Stream
  connect tor addr = elim (parse_addr tor.config.proxy_addr) [
    | none ↦ err invalid_proxy
    | some proxy ↦ elim (rsplit_once b':' addr) [
      | none ↦ err invalid_address
      | some (host, port) ↦ connect_to proxy host port
    ]
  ]

  unfoldable pub via_tor : TorConnector → ConnectedPoint → Link Stream
  via_tor tor point =
      let addr = addr_str point in
      if is_onion_address addr
      then tunnel (connect tor addr)
      else if is_enabled tor
      then tunnel (connect tor addr)
      else direct

  unfoldable pub transport : TorConfig → ConnectedPoint → Link Stream
  transport config point =
      let tor_connector = if config.enabled then some (new_connector config) else none in
      elim tor_connector [ some tor ↦ via_tor tor point | none ↦ standard ]
