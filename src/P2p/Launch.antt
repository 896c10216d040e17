-- ===== src/P2p/Launch.antt =====
-- `start_p2p` of src/p2p.rs up to its two tasks: the network is put together from its settings, and
-- listens. Building and listening are libp2p's.
use hancoin.Prelude.{ℕ, String, Bool, true, Option, none, some}
use hancoin.Tor.{TorConfig}
use hancoin.P2p.Peers.{P2PConfig, default, P2PState, initial}

-- The names that messages get are `message_id`; scores of peers are libp2p's own.
pub record GossipsubConfig : Type 0 where
  pub max_transmit_size : ℕ
  pub strict_validation : Bool
  pub flood_publish : Bool

-- Times are in seconds.
pub record SwarmConfig : Type 0 where
  pub idle_connection_timeout : ℕ
  pub max_established_incoming_connections : ℕ
  pub max_established_outgoing_connections : ℕ
  pub dial_concurrency_factor : ℕ
  pub notification_buffer_size : ℕ
  pub pending_connection_timeout : ℕ
  pub max_negotiating_inbound_streams : ℕ
  pub max_negotiating_outbound_streams : ℕ
  pub connection_event_buffer_size : ℕ

-- What libp2p does for `start_p2p`: `none` is an error. The transport of a swarm is told by the
-- settings of Tor, see `transport`.
pub record Libp2p : Type 1 where
  pub Keypair : Type 0
  pub NoiseKeys : Type 0
  pub Gossipsub : Type 0
  pub Multiaddr : Type 0
  pub Swarm : Type 0
  pub into_authenticated : Keypair → Option NoiseKeys
  pub new_gossipsub : Keypair → GossipsubConfig → Option Gossipsub
  pub subscribe : Gossipsub → String → Option Gossipsub
  pub build : TorConfig → NoiseKeys → Gossipsub → SwarmConfig → Keypair → Swarm
  pub parse : String → Option Multiaddr
  pub listen_on : Swarm → Multiaddr → Option Swarm

abbrev pub gossipsub_config : P2PConfig → GossipsubConfig
gossipsub_config config = record {
  max_transmit_size = config.max_message_size;
  strict_validation = true;
  flood_publish = true;
}

abbrev pub swarm_config : P2PConfig → SwarmConfig
swarm_config config = record {
  idle_connection_timeout = config.peer_timeout;
  max_established_incoming_connections = config.max_connections;
  max_established_outgoing_connections = config.max_connections;
  dial_concurrency_factor = 4;
  notification_buffer_size = 32;
  pending_connection_timeout = 10;
  max_negotiating_inbound_streams = 8;
  max_negotiating_outbound_streams = 8;
  connection_event_buffer_size = 64;
}

pub data NetworkError : Type 0 where
  noise_keys : NetworkError
  invalid_address cannot_listen : String → NetworkError

abbrev pub unwrap_or_default : Option P2PConfig → P2PConfig
unwrap_or_default none = default
unwrap_or_default (some config) = config

module _ (L : Libp2p) where
  -- A network whose tasks are about to run.
  pub record Network : Type 0 where
    pub config : P2PConfig
    pub swarm : L.Swarm
    pub state : P2PState

  -- `panicked` is a failed `expect`; without a network, no task runs.
  pub data Launch : Type 0 where
    running : Network → Launch
    failed : NetworkError → Launch
    panicked : Launch

  abbrev pub listen : L.Swarm → String → (L.Swarm → Launch) → Launch
  listen swarm address next = elim (L.parse address) [
    | none ↦ failed (invalid_address address)
    | some a ↦ elim (L.listen_on swarm a) [
      | none ↦ failed (cannot_listen address)
      | some s ↦ next s
    ]
  ]

  abbrev pub subscribed : L.Keypair → P2PConfig → Option L.Gossipsub
  subscribed id_keys config = elim (L.new_gossipsub id_keys (gossipsub_config config)) [
    | none ↦ none
    | some gossipsub ↦ L.subscribe gossipsub "hancoin-topic-v2"
  ]

  -- `id_keys` is the generated key pair.
  unfoldable pub start_p2p : L.Keypair → Option P2PConfig → Launch
  start_p2p id_keys given =
      let config = unwrap_or_default given in
      elim (L.into_authenticated id_keys) [
        | none ↦ failed noise_keys
        | some noise ↦ elim (subscribed id_keys config) [
          | none ↦ panicked
          | some gossipsub ↦
              listen (L.build config.tor_config noise gossipsub (swarm_config config) id_keys)
                "/ip4/0.0.0.0/tcp/4001"
                (λ s.
                  listen s "/ip6/::/tcp/4001"
                    (λ t. running (record { config = config; swarm = t; state = initial })))
        ]
      ]
