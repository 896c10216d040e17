-- ===== src/Start/Site.antt =====
-- The whole node of src/main.rs behind its routes: requests reach the chat, the handlers or the
-- CoinJoin routes, and the tasks of the chat and of the manager run between them. The handlers that the
-- source does not define are the argument `others`. Each event is over before the next; what happens
-- where claims overlap is in Api/Faucet/Tasks.
pub mod Requests
pub mod Whole
use hancoin.Prelude.{ℕ, List, [], ◌∷◌, some}
use hancoin.Machine.{Profile, Clock}
use hancoin.Stores.{DashMap, DashSet}
use hancoin.Ledger.{Stores, Ledger}
use hancoin.Api.{Outcome, reply, reject, panic, HancoinError, Json, Crypto}
use hancoin.Api.Node
use hancoin.Api.Node.{Rest, serve}
use hancoin.Coinjoin.Data.{CoinJoinSession}
use hancoin.Coinjoin.Manager.{Answer, CleanupEvent}
use hancoin.Coinjoin.Manager.Life
use hancoin.Ws.Token.{Decode, JwtValidator}
use hancoin.Ws.Socket
use hancoin.Ws.Chat.{Server}
use hancoin.Ws.Chat
use hancoin.Replies.{Rejections}
use hancoin.Routes.{
  Request, Filters, Call, handle_faucet, handle_balance, handle_transfer, Ran, answered, refused,
  broken,
}
use hancoin.Routes.Endpoints.{called}
use hancoin.Routes.Server.{Served, upgrades, replies, coinjoin, fails, Wrapping, routes}
use hancoin.Start.{Node, asks_coinjoin, handle}

module _ (S : Stores) (D : DashMap CoinJoinSession) (js : Json) (C : Crypto) {A : Type 0}
    (finish : CoinJoinSession → Answer A) where
  pub record Site : Type 0 where
    pub node : Node S D
    pub chat : Server

  -- A request with the readings of the clocks that are made for it, a turn of a task of the chat, or
  -- one of the manager's.
  pub data Event : Type 0 where
    asked : (r : Request js.Value) (now : ℕ) (clock created : Clock) → Event
    chats : (task : ℕ) (event : Socket.Event) → Event
    cleans : CleanupEvent → Event

  -- What a handler comes to, of its outcome and the ledger that it leaves. The task of a handler that
  -- panics gives no answer.
  abbrev pub ran : Node S D → Outcome (Unit {0}) → Ledger S → Ran (Node S D) HancoinError (Unit {0})
  ran node (reply a) l = answered a (record node { ledger = l })
  ran node (reject e) l = refused (some e) (record node { ledger = l })
  ran node panic l = broken (record node { ledger = l })

  module _ (profile : Profile) (rest : Rest S js C)
      (others : Call js.Value → Ledger S → Outcome (Unit {0}) × Ledger S) where
    -- A handler with the readings of the clock that it makes.
    unfoldable pub call :
        Clock → Clock → Call js.Value → Node S D → Ran (Node S D) HancoinError (Unit {0})
    call clock created (handle_faucet v) node =
        let r = serve S js C profile rest node.ledger (Node.faucet v clock created) in
        ran node r.0 r.1
    call clock created (handle_balance id) node =
        let r = serve S js C profile rest node.ledger (Node.balance id) in ran node r.0 r.1
    call clock created (handle_transfer v) node =
        let r = serve S js C profile rest node.ledger (Node.transfer v) in ran node r.0 r.1
    call clock created c node = let r = others c node.ledger in ran node r.0 r.1

    -- The chat gets its connection; all other answers have done their work.
    unfoldable pub answer : {B : Type 0} → Site → Served (Unit {0}) B → Site
    answer site (upgrades input) = record site { chat = Chat.apply profile site.chat input }
    answer site (replies a) = site
    answer site (coinjoin b) = site
    answer site (fails err) = site

    abbrev pub after :
        {B : Type 0} → Site → Ran (Node S D) HancoinError (Served (Unit {0}) B) → Site
    after site (answered served node) = answer (record site { node = node }) served
    after site (refused e node) = record site { node = node }
    after site (broken node) = record site { node = node }

    module _ {B : Type 0} (W : Filters js.Value (Node S D) HancoinError) (set : DashSet)
        (decode : Decode) (v : JwtValidator set) (R : Rejections) (wrapping : Wrapping W R)
        (coinjoin_routes : W.Filter B) where
      unfoldable pub happen : Site → Event → Site
      happen site (asked r now clock created) = after site (
          called (
            W.run _ (routes W set decode v now (call clock created) R wrapping coinjoin_routes) r
              site.node r.path))
      happen site (chats task event) = record site {
        chat = Chat.apply profile site.chat (Chat.Input.turn task event);
      }
      happen site (cleans event) = record site {
        node = handle S D js C finish profile rest site.node (asks_coinjoin (Life.cleans event));
      }

      unfoldable pub happen_all : Site → List Event → Site
      happen_all site [] = site
      happen_all site (e ∷ events) = happen_all (happen site e) events
