-- ===== src/Start.antt =====
-- `main` of src/main.rs: the parts of the node as it is started, and what its clients do to them.
pub mod Sound
pub mod Main
pub mod Site
use hancoin.Prelude.{ℕ, Bool, String, List, [], ◌∷◌, Option, none, some, leb, if◌then◌else◌}
use hancoin.Machine.{Profile}
use hancoin.Stores.{DashMap}
use hancoin.Supply.{han_total_supply}
use hancoin.Ledger.{Stores, Ledger, new}
use hancoin.Tor.{TorConfig, configure}
use hancoin.P2p.Peers
use hancoin.P2p.Peers.{P2PConfig}
use hancoin.P2p.Launch.{Libp2p, Network, running, failed, panicked, start_p2p}
use hancoin.Api.{Json, Crypto}
use hancoin.Api.Node.{Request, Rest, serve}
use hancoin.Coinjoin.Data.{CoinJoinSession}
use hancoin.Coinjoin.Manager.{CoinJoinManager, Answer, new_manager}
use hancoin.Coinjoin.Manager.Life.{Call, apply}

-- The time-out of a CoinJoin session that asks for none: an hour.
abbrev pub coinjoin_timeout : ℕ
coinjoin_timeout = 3600

abbrev pub server_port : ℕ
server_port = 3030

-- What `main` meets outside of it: whether `init_crypto`, which it calls first and which is not in the
-- source, returns or panics, and whether warp's server can have a port.
pub record Host : Type 0 where
  pub init_crypto : Bool
  pub bind : ℕ → Bool

module _ (S : Stores) (D : DashMap CoinJoinSession) where
  pub record Node : Type 0 where
    pub ledger : Ledger S
    pub coinjoin_manager : CoinJoinManager D
    pub tor_config : TorConfig

  -- `none` is the return where the supply is used up. The arguments are the variables ENABLE_TOR and
  -- TOR_PROXY.
  unfoldable pub start : Option String → Option String → Option Node
  start enable_tor tor_proxy =
      let ledger : Ledger S = new S in
      if leb han_total_supply ledger.issued
      then none
      else some (record {
        ledger = ledger;
        coinjoin_manager = new_manager D coinjoin_timeout;
        tor_config = configure enable_tor tor_proxy;
      })

  -- How `main` comes to its server: with a network or, after an error there, without one. It stops
  -- where the supply is used up, and panics where a call of it does.
  pub data Serving (L : Libp2p) : Type 0 where
    serves : Node → Option (Network L) → Serving L
    stops : Serving L
    panics : Serving L

  abbrev pub p2p_config : Option String → Option String → P2PConfig
  p2p_config enable_tor tor_proxy = record Peers.default {
    tor_config = configure enable_tor tor_proxy;
  }

  -- The last step of `main`: warp's server panics if it cannot have its port.
  unfoldable pub serve_on : {L : Libp2p} → Host → Node → Option (Network L) → Serving L
  serve_on host node network = if host.bind server_port then serves node network else panics

  unfoldable pub main : Host → (L : Libp2p) → L.Keypair → Option String → Option String → Serving L
  main host L id_keys enable_tor tor_proxy =
      if host.init_crypto
      then elim (start enable_tor tor_proxy) [
        | none ↦ stops
        | some node ↦ elim (start_p2p L id_keys (some (p2p_config enable_tor tor_proxy))) [
          | running net ↦ serve_on host node (some net)
          | failed e ↦ serve_on host node none
          | panicked ↦ panics
        ]
      ]
      else panics

  module _ (js : Json) (C : Crypto) {A : Type 0} (finish : CoinJoinSession → Answer A) where
    -- A request to the interface for accounts, or one for CoinJoin sessions. The two share nothing.
    pub data Input : Type 0 where
      asks_api : Request S js C → Input
      asks_coinjoin : Call → Input

    unfoldable pub handle : Profile → Rest S js C → Node → Input → Node
    handle profile rest node (asks_api r) = record node {
      ledger = (serve S js C profile rest node.ledger r).1;
    }
    handle profile rest node (asks_coinjoin c) = record node {
      coinjoin_manager = apply D finish node.coinjoin_manager c;
    }

    unfoldable pub handle_all : Profile → Rest S js C → Node → List Input → Node
    handle_all profile rest node [] = node
    handle_all profile rest node (i ∷ inputs) =
        handle_all profile rest (handle profile rest node i) inputs
