-- ===== src/Lib.antt =====
-- A model of the Hancoin node in antt: accounts and their ledger, the faucet and the transfers of
-- the HTTP interface with its routes and its error replies, the WebSocket chat, the peer-to-peer
-- network with its connector for Tor, and the CoinJoin sessions.
--
-- The parts and their files:
--   Machine     u64 arithmetic in debug and release builds, and readings of the clock
--   Stores      DashMap and LruCache, as interfaces with the laws that the program relies on
--   Coinjoin    src/coinjoin.rs: Data has the types, Session the methods of CoinJoinSession (below it
--               the invariant, the step relation, the table of statuses, whole runs and the faults),
--               Manager the methods of CoinJoinManager with its cleaning task (below it its laws, Life
--               with requests and the task in any order, and Apart with one session among the others)
--   Account     src/types.rs: the format of identifiers, accounts, their history and the cooldown
--   Supply      src/types.rs: the total supply and yearly_distribution
--   Ledger      src/types.rs: Ledger with its cache of accounts, get_account and the batches (Reads:
--               many reads, next to the maps alone)
--   Api         src/main.rs: handle_faucet in three parts (authenticate, read_claim, write_claim),
--               handle_balance, handle_transfer, and a node that serves requests one by one; below
--               Faucet, Spec is the faucet as an abstract machine on balances, and Runs compares the
--               two over many claims (Daily: claims a day apart; Builds: the kinds of build;
--               Drain: the supply to its end; Behind and Stale: the cache next to claims;
--               Backwards: a clock that goes back; Tasks: claims as tasks whose accesses to the ledger
--               interleave; Crowd and Race: claims that are all read before they are written)
--   Routes      src/main.rs: create_api_routes, over the filters of warp as an interface, which pass
--               the state that the handlers share and the errors of the handlers (Server: all routes of
--               main, with chat_routes of src/ws.rs and the replies to rejections)
--   Replies     src/error.rs: HancoinError, and the reply of handle_rejection
--   Start       src/main.rs: what main puts together before it serves, with a network or without,
--               and what clients do to it (Site: the node behind its routes, with the chat)
--   Text        the operations of str that the program calls, on lists of code points
--   Ws          src/ws.rs: Token has JwtValidator, Secrets its start from the environment, Socket the
--               parts of handle_ws, Chat chat_routes and all tasks of handle_ws over one WsState,
--               Alone one task from its start to its end, Service the validator and the tasks together
--   Tor         src/tor.rs: TorConnector; and the choice of src/p2p.rs between Tor and TCP, with the
--               settings that main reads
--   P2p         src/p2p.rs: Peers has P2PState with the event loop and the cleaning task, Message has
--               P2PMessage, Gossip the names of gossiped messages, Launch start_p2p up to its tasks,
--               Received the gossip that its validator lets through to the event loop
--   Suite       the unit tests of src/types.rs and src/ws.rs, run on the model
--   Examples    concrete containers, tests of the definitions, and the theorems at concrete inputs
--
-- How they interact: main starts one Ledger, one CoinJoinManager and, with the settings of Tor, the
-- network (Start); Routes sends a request to the chat, to a handler of Api or to the CoinJoin routes;
-- the handlers read and write the maps of Ledger, the faucet past the cache that get_account reads;
-- Ws and P2p keep states of their own.
--
-- A method that changes its object returns the new one. A clock reading is an argument, `none` for a
-- clock before the epoch; a panic is `none` or `panic`. Numbers are unbounded naturals where the
-- program adds nothing to them; u64 sums and differences go through `Machine`, whose two profiles are
-- the two kinds of build. No code of the program runs on fuel: every loop is over a list, of the
-- steps, frames or requests to come where the program's has no end.
--
-- Taken as parameters: the maps and the cache (crates dashmap and lru), JSON values, hexadecimal
-- decoding, keys, signatures, hashes and tokens (crates serde_json, hex, ed25519_dalek, libp2p,
-- blake3, jsonwebtoken), filters and rejections (crate warp), swarms and their listeners (libp2p),
-- SOCKS5 connections (tokio_socks), fresh identifiers (uuid). src/coinjoin.rs ends in the middle of
-- CoinJoinManager::add_input and src/main.rs in the middle of handle_transfer; what would follow is
-- a parameter there too, and so are create_coinjoin_routes, init_crypto and the handlers that
-- src/main.rs names and the source does not define.
--
-- Not modelled: how warp serves once it has its port, the answers of CORS and the causes of warp's own
-- rejections; in src/p2p.rs the TCP connection that libp2p opens before the connector is asked, and the
-- upgrade of a transport to Noise and Yamux; logging; the derived code of serde; src/crypto.rs, which
-- is one call of a generator of keys; the trait TorNetwork and the requests of
-- src/coinjoin.rs for outputs, signatures and the end, which no code of the source uses; and the
-- wallet, which is written in another language.
pub mod Prelude
pub mod Machine
pub mod Stores
pub mod Coinjoin
pub mod Account
pub mod Suite
pub mod Supply
pub mod Ledger
pub mod Api
pub mod Text
pub mod Replies
pub mod Routes
pub mod Start
pub mod P2p
pub mod Tor
pub mod Ws
pub mod Examples
