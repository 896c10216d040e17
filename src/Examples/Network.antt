-- ===== src/Examples/Network.antt =====
-- The peer-to-peer network of src/p2p.rs and the connector of src/tor.rs at concrete inputs.
use hancoin.Prelude.{
  ℕ, ◌≡◌, ◌≢◌, refl, ◌⊎◌, String, true, false, List, [], ◌∷◌, ◌++◌, Option, none, some, arith, ◌+◌,
  ◌==◌, if◌then◌else◌, false, if◌then◌else◌, ◌==◌,
}
use hancoin.Machine.{Profile}
use hancoin.Account.{codes}
use hancoin.Text.{Text, rsplit_once}
use hancoin.Tor.{
  TorConfig, TorConnector, new_connector, is_enabled, via_tor, ok, ConnectError, err, standard,
  tunnel, ConnectedPoint, dial, connect, connect_to, parse_u16, read_digits, configure, unwrap_text,
  transport, is_onion_address, has, begins,
}
use hancoin.Tor.Ports.{show_port, connect-show_port}
use hancoin.Tor.Routes.{transport-configure}
use hancoin.P2p.Launch.{Libp2p, failed, invalid_address, running, start_p2p}
use hancoin.P2p.Received.{Gossip, accepted}
use hancoin.P2p.Peers.{default, P2PState, initial, SwarmEvent, Step, run}
use hancoin.P2p.Forgotten.{IsAfter, run_lem, connected_is_forgotten}
use hancoin.P2p.Message.{
  P2PMessage, sign, signed_data, verify, to_be_bytes, verify-sign, signed_data_injective,
}
use hancoin.Examples.Instances.{plain}

-- Every proxy is reached, and gives back what it was asked for.
abbrev proxies : Text → Option Text
proxies s = some s

abbrev asked : Text → Text → ℕ → Option (Text × ℕ)
asked proxy host port = some (host, port)

abbrev tor : TorConfig
tor = record { enabled = true; proxy_addr = codes "127.0.0.1:9050"; only_onion = false }

abbrev connector : TorConnector
connector = new_connector tor

onion_address : connect proxies asked connector (codes "abc.onion:80") ≡ ok (codes "abc.onion", 80)
unfolding connect connect_to rsplit_once parse_u16 read_digits
onion_address = refl

port_too_large :
    connect proxies asked connector (codes "abc.onion:65536") ≡ err ConnectError.invalid_port
unfolding connect connect_to rsplit_once parse_u16 read_digits
port_too_large = refl

-- Libp2p writes the address of a peer with slashes: over Tor there is no way to it.
ipv4_is_refused :
    transport proxies asked tor (ConnectedPoint.dialer (codes "/ip4/192.0.2.1/tcp/4001"))
    ≡ tunnel (err ConnectError.invalid_address)
unfolding transport via_tor is_enabled is_onion_address has begins connect rsplit_once
ipv4_is_refused = refl

finds_onion :
    (is_onion_address (codes "abc.onion:80") ≡ true)
    × (is_onion_address (codes "abc.onion") ≡ false)
unfolding is_onion_address has begins
finds_onion = (refl, refl)

connect-show_port_example :
    connect proxies asked connector (codes "abc.onion" ++ b':' ∷ show_port 80)
    ≡ dial proxies asked (codes "127.0.0.1:9050") (codes "abc.onion") 80
connect-show_port_example =
    connect-show_port proxies asked connector (codes "127.0.0.1:9050") (codes "abc.onion") 80 refl
      (omega arith)

abbrev switched_on : Option String
switched_on = some "true"

transport-configure_example :
    ((switched_on ≡ switched_on)
      × (transport proxies asked (configure switched_on none) (ConnectedPoint.dialer (codes "a:1"))
          ≡ tunnel (
              connect proxies asked
                (new_connector (record {
                  enabled = true;
                  proxy_addr = unwrap_text none "127.0.0.1:9050";
                  only_onion = false;
                }))
                (codes "a:1"))))
    ⊎ ((switched_on ≢ switched_on)
        × (transport proxies asked
              (configure switched_on none)
              (ConnectedPoint.dialer (codes "a:1"))
            ≡ standard))
transport-configure_example =
    transport-configure proxies asked switched_on none (ConnectedPoint.dialer (codes "a:1"))

-- Bob connects and sends a message, and a cleaning runs.
abbrev steps : List Step
steps =
    Step.event (SwarmEvent.established "bob" 5)
    ∷ Step.event (SwarmEvent.message "bob" 30)
    ∷ Step.cleanup 35
    ∷ []

run_lem_example :
    (last : P2PState) × (run Profile.debug default initial steps ≡ some last)
    × IsAfter default initial steps last
run_lem_example = run_lem Profile.debug default initial steps (omega arith)

connected_is_forgotten_example :
    (last : P2PState) × (run Profile.debug default initial steps ≡ some last)
    × (last.active_peers "bob" ≡ none)
connected_is_forgotten_example =
    connected_is_forgotten Profile.debug default initial "bob" 5 35
      (Step.event (SwarmEvent.message "bob" 30) ∷ []) tt (omega arith) (omega arith)

abbrev greeting : P2PMessage
greeting = record { version = 1; timestamp = 258; payload = 7 ∷ []; signature = [] }

greeting_data : signed_data plain greeting ≡ some (1 ∷ 7 ∷ 0 ∷ 0 ∷ 0 ∷ 0 ∷ 0 ∷ 0 ∷ 1 ∷ 2 ∷ [])
unfolding signed_data to_be_bytes
greeting_data = refl

verify-sign_example :
    ((plain.serialize greeting.payload ≡ none) × (sign plain greeting tt ≡ none))
    ⊎ ((signed : P2PMessage) × (sign plain greeting tt ≡ some signed)
        × (verify plain signed tt ≡ none))
verify-sign_example = verify-sign plain greeting tt

signed_data_injective_example :
    (greeting.payload ≡ greeting.payload) × (greeting.timestamp ≡ greeting.timestamp)
unfolding signed_data to_be_bytes
signed_data_injective_example =
    signed_data_injective plain greeting (record greeting { version = 2 })
      (1 ∷ 7 ∷ 0 ∷ 0 ∷ 0 ∷ 0 ∷ 0 ∷ 0 ∷ 1 ∷ 2 ∷ []) (omega arith) (omega arith) greeting_data
      greeting_data

-- A libp2p that parses one address only.
abbrev pub first_only : Libp2p
first_only = record {
  Keypair = Unit {0};
  NoiseKeys = Unit {0};
  Gossipsub = Unit {0};
  Multiaddr = Unit {0};
  Swarm = ℕ;
  into_authenticated = λ k. some tt;
  new_gossipsub = λ k c. some tt;
  subscribe = λ g topic. some tt;
  build = λ t n g c k. 0;
  parse = λ address. if address == "/ip4/0.0.0.0/tcp/4001" then some tt else none;
  listen_on = λ swarm a. some (swarm + 1);
}

-- The same with every address.
abbrev every : Libp2p
every = record first_only { parse = λ address. some tt }

no_second_address : start_p2p first_only tt none ≡ failed (invalid_address "/ip6/::/tcp/4001")
unfolding start_p2p
no_second_address = refl

two_listeners :
    start_p2p every tt none ≡ running (record { config = default; swarm = 2; state = initial })
unfolding start_p2p
two_listeners = refl

-- One message fits, one is too large, and one comes too fast.
abbrev gossip : List Gossip
gossip =
    record { source = "bob"; size = 1024; limited = false; now = 5 }
    ∷ record { source = "bob"; size = 1025; limited = false; now = 6 }
    ∷ record { source = "ann"; size = 10; limited = true; now = 7 }
    ∷ []

one_counted : accepted default gossip ≡ 5 ∷ []
one_counted = refl
