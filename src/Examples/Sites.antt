-- ===== src/Examples/Sites.antt =====
-- The whole node of src/main.rs at concrete inputs.
use hancoin.Prelude.{◌≡◌, refl, ◌⊎◌, Option, List, [], ◌∷◌, true, none, arith, length}
use hancoin.Machine.{Profile}
use hancoin.Ledger.{Ledger}
use hancoin.Api.{Outcome, reply, HancoinError}
use hancoin.Coinjoin.Data.{CoinJoinSession, CoinJoinSessionInfo}
use hancoin.Coinjoin.Session.{get_info}
use hancoin.Coinjoin.Manager.{Answer, ok, CleanupEvent}
use hancoin.Coinjoin.Manager.Life
use hancoin.P2p.Launch.{Network}
use hancoin.Ws.Chat.{idle, request, apply, arrived}
use hancoin.Ws.Token.{validate_token, try_validate, try_previous}
use hancoin.Ws.Socket
use hancoin.Ws.Socket.{enter}
use hancoin.Replies
use hancoin.Replies.{Rejections}
use hancoin.Routes.{Call, Filters, takes}
use hancoin.Routes.Server.{routes, tried, chat_routes, get, Wrapping}
use hancoin.Start.{Node, Host, serves, panics, p2p_config, main}
use hancoin.Start.Main.{CannotServe}
use hancoin.Start.Site.{Site, Event, asked, chats, cleans, happen, happen_all, answer}
use hancoin.Start.Site.Requests.{OnlyCalls}
use hancoin.Start.Site.Whole.{IsWhole, main-IsWhole}
use hancoin.Examples.Instances.{lists, list_map, list_set}
use hancoin.Examples.Hex.{Body, trusting, bodies}
use hancoin.Examples.Network.{first_only}
use hancoin.Examples.Chat.{decode, validator}
use hancoin.Examples.Filters.{functions, rejections, wrapping}
use hancoin.Examples.Http.{opening, bare}

abbrev info : CoinJoinSession → Answer CoinJoinSessionInfo
info s = ok (get_info s)

-- A chat is opened and ends, the manager's task runs, and a path is not found.
abbrev visits : List (Event lists (list_map CoinJoinSession) bodies trusting info)
visits =
    asked opening 7 none none
    ∷ chats 0 Socket.Event.ended
    ∷ cleans CleanupEvent.tick
    ∷ asked (bare "GET" ("v2" ∷ [])) 8 none none
    ∷ []

abbrev ListNode : Type 0
ListNode = Node lists (list_map CoinJoinSession)

abbrev filters : Filters Body ListNode HancoinError
filters = functions ListNode HancoinError

-- The errors of the handlers are those of src/types.rs, and none of src/error.rs.
abbrev unnamed : HancoinError → Option Replies.HancoinError
unnamed e = none

abbrev site_rejections : Rejections
site_rejections = rejections ListNode HancoinError unnamed

abbrev site_wrapping : Wrapping filters site_rejections
site_wrapping = wrapping ListNode HancoinError unnamed

abbrev nothing : Call Body → Ledger lists → Outcome (Unit {0}) × Ledger lists
nothing c l = (reply tt, l)

-- CoinJoin routes that have the manager's task run.
abbrev cleaning : filters.Filter (Unit {0})
cleaning r node path = takes tt path (record node {
  coinjoin_manager =
      Life.apply (list_map CoinJoinSession) info node.coinjoin_manager
        (Life.cleans CleanupEvent.tick);
})

only_cleans : OnlyCalls lists (list_map CoinJoinSession) bodies trusting info filters cleaning
unfolding Life.apply_all
only_cleans r node path = (Life.cleans CleanupEvent.tick ∷ [], refl)

abbrev visited :
    Site lists (list_map CoinJoinSession) bodies trusting info
    → List (Event lists (list_map CoinJoinSession) bodies trusting info)
    → Site lists (list_map CoinJoinSession) bodies trusting info
visited =
    happen_all lists (list_map CoinJoinSession) bodies trusting info Profile.release
      (λ t a k l. (reply tt, l)) nothing filters list_set decode validator site_rejections
      site_wrapping cleaning

-- Opening a chat starts one task.
one_chats :
    (node : ListNode)
    → (visited (record { node = node; chat = idle }) (asked opening 7 none none ∷ [])).chat.live
      ≡ 0 ∷ []
unfolding happen_all happen answer routes tried chat_routes get request validate_token try_validate
    try_previous apply arrived enter
one_chats node = refl

abbrev host : Host
host = record { init_crypto = true; bind = λ port. true }

main-IsWhole_example :
    ((main lists (list_map CoinJoinSession) host first_only tt none none ≡ panics)
      × CannotServe host first_only tt (p2p_config lists (list_map CoinJoinSession) none none))
    ⊎ ((node : ListNode) × ((network : Option (Network first_only)) × ((main lists
                (list_map CoinJoinSession)
                host
                first_only
                tt
                none
                none
              ≡ serves node network)
            × IsWhole lists
                (list_map CoinJoinSession)
                bodies
                trusting
                info
                (length visits)
                (visited (record { node = node; chat = idle }) visits))))
main-IsWhole_example =
    main-IsWhole lists (list_map CoinJoinSession) bodies trusting info Profile.release
      (λ t a k l. (reply tt, l)) nothing (λ t a k l v. v) (λ c l v. v) filters list_set decode
      validator site_rejections site_wrapping cleaning only_cleans host first_only tt none none
      visits (omega arith)
