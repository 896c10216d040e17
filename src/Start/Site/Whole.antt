-- ===== src/Start/Site/Whole.antt =====
-- What holds of the whole node of src/main.rs, whatever reaches it.
use hancoin.Prelude.{
  ℕ, ◌+◌, ◌≡◌, ◌≤◌, ◌<◌, List, [], ◌∷◌, Option, suc, arith, length, inl, inr, ◌⊎◌, String,
}
use hancoin.Machine.{Profile, u64_mod}
use hancoin.Stores.{DashMap, DashSet}
use hancoin.Ledger.{Stores, Ledger}
use hancoin.Api.{Outcome, HancoinError, Json, Crypto}
use hancoin.Api.Node.{Rest}
use hancoin.Api.Faucet.Money.{IsBacked}
use hancoin.Coinjoin.Data.{CoinJoinSession}
use hancoin.Coinjoin.Manager.{Answer}
use hancoin.Coinjoin.Manager.Life
use hancoin.Coinjoin.Manager.Life.{apply_all-IsManaged}
use hancoin.Ws.Token.{Decode, JwtValidator}
use hancoin.Ws.Chat
use hancoin.Ws.Chat.{Input, idle, IsCounted}
use hancoin.Ws.Chat.Counts.{apply-IsCounted, idle-IsCounted, IsCounted-mono}
use hancoin.Replies.{Rejections}
use hancoin.Routes.{Filters, Call, Ran, answered, refused, broken}
use hancoin.Routes.Endpoints.{called, state_of}
use hancoin.Routes.Server.{Served, upgrades, replies, coinjoin, fails, Wrapping, routes}
use hancoin.P2p.Launch.{Libp2p, Network}
use hancoin.Start.{Node, asks_coinjoin, serves, panics, p2p_config, main, Host}
use hancoin.Start.Sound.{IsSound, Keeps, handle-IsSound}
use hancoin.Start.Main.{CannotServe, main-IsSound}
use hancoin.Start.Site.Requests.{OnlyCalls, routes-IsSound}
use hancoin.Start.Site.{Site, Event, asked, chats, cleans, call, answer, after, happen, happen_all}

module _ (S : Stores) (D : DashMap CoinJoinSession) (js : Json) (C : Crypto) {A : Type 0}
    (finish : CoinJoinSession → Answer A) where
  -- The node is sound, and after at most n events the counters of the chat say what there is.
  pub record IsWhole (n : ℕ) (site : Site S D js C finish) : Type 0 where
    pub sound : IsSound S D site.node
    pub counted : IsCounted n site.chat

  module _ (profile : Profile) (rest : Rest S js C)
      (others : Call js.Value → Ledger S → Outcome (Unit {0}) × Ledger S)
      (keeps : Keeps S D js C finish profile rest)
      (keep : (c : Call js.Value) (l : Ledger S) → IsBacked S l → IsBacked S (others c l).1) where
    after-IsWhole :
        {B : Type 0} (n : ℕ) (site : Site S D js C finish)
        (c : Ran (Node S D) HancoinError (Served (Unit {0}) B))
        → suc n < u64_mod
        → IsCounted n site.chat
        → IsSound S D (state_of c)
        → IsWhole (suc n) (after S D js C finish profile rest others site c)
    unfolding answer
    after-IsWhole n site (answered (upgrades input) node) b h s = record {
      sound = s;
      counted = apply-IsCounted profile n site.chat input b h;
    }
    after-IsWhole n site (answered (replies a) node) b h s = record {
      sound = s;
      counted = IsCounted-mono n (suc n) site.chat (omega arith) h;
    }
    after-IsWhole n site (answered (coinjoin c) node) b h s = record {
      sound = s;
      counted = IsCounted-mono n (suc n) site.chat (omega arith) h;
    }
    after-IsWhole n site (answered (fails err) node) b h s = record {
      sound = s;
      counted = IsCounted-mono n (suc n) site.chat (omega arith) h;
    }
    after-IsWhole n site (refused e node) b h s = record {
      sound = s;
      counted = IsCounted-mono n (suc n) site.chat (omega arith) h;
    }
    after-IsWhole n site (broken node) b h s = record {
      sound = s;
      counted = IsCounted-mono n (suc n) site.chat (omega arith) h;
    }

    module _ {B : Type 0} (W : Filters js.Value (Node S D) HancoinError) (set : DashSet)
        (decode : Decode) (v : JwtValidator set) (R : Rejections) (wrapping : Wrapping W R)
        (coinjoin_routes : W.Filter B) (only : OnlyCalls S D js C finish W coinjoin_routes) where
      happen-IsWhole :
          (n : ℕ) (site : Site S D js C finish) (e : Event S D js C finish)
          → suc n < u64_mod
          → IsWhole n site
          → IsWhole (suc n) (
              happen S D js C finish profile rest others W set decode v R wrapping coinjoin_routes
                site e)
      unfolding happen
      happen-IsWhole n site (asked r now clock created) b h =
          let perform = call S D js C finish profile rest others clock created in
          after-IsWhole n site
            (called (
              W.run _ (routes W set decode v now perform R wrapping coinjoin_routes) r site.node
                r.path))
            b h.counted
            (routes-IsSound S D js C finish profile rest others keeps keep W set decode v R wrapping
              coinjoin_routes only now clock created r site.node r.path h.sound)
      happen-IsWhole n site (chats task event) b h = record {
        sound = h.sound;
        counted = apply-IsCounted profile n site.chat (Chat.Input.turn task event) b h.counted;
      }
      happen-IsWhole n site (cleans event) b h = record {
        sound =
            handle-IsSound S D js C finish profile rest keeps site.node
              (asks_coinjoin (Life.cleans event)) h.sound;
        counted = IsCounted-mono n (suc n) site.chat (omega arith) h.counted;
      }

      happen_all-IsWhole :
          (n k : ℕ) (site : Site S D js C finish) (events : List (Event S D js C finish))
          → n + length events ≤ k
          → k < u64_mod
          → IsWhole n site
          → IsWhole k (
              happen_all S D js C finish profile rest others W set decode v R wrapping
                coinjoin_routes site events)
      unfolding happen_all
      happen_all-IsWhole n k site [] a b h = record {
        sound = h.sound;
        counted = IsCounted-mono n k site.chat (omega arith) h.counted;
      }
      happen_all-IsWhole n k site (e ∷ events) a b h =
          happen_all-IsWhole (suc n) k _ events (omega arith) b
            (happen-IsWhole n site e (omega arith) h)

      -- `main` panics only where `init_crypto` does, where libp2p cannot set up its gossip, or where
      -- the port of the server is not free. Else it serves, whatever the environment says and whatever
      -- else fails in the network; and after any requests, in any order with the turns of the tasks,
      -- fewer than 2 ^ 64 in all, the coins are backed, the sessions well formed, the counter of
      -- connections is the number of running tasks of the chat, at most 1000, and the counter of its
      -- messages that of its echoes. This holds if what follows the checks of a transfer, and the
      -- handlers that are not defined, keep the coins backed, and if the CoinJoin routes, which are
      -- not defined either, reach the node by calls of the manager only.
      pub main-IsWhole :
          (host : Host) (L : Libp2p) (id_keys : L.Keypair) (enable_tor tor_proxy : Option String)
          (events : List (Event S D js C finish))
          → length events < u64_mod
          → ((main S D host L id_keys enable_tor tor_proxy ≡ panics)
              × CannotServe host L id_keys (p2p_config S D enable_tor tor_proxy))
            ⊎ ((node : Node S D) × ((network : Option (Network L)) × ((main S D host L id_keys
                        enable_tor tor_proxy
                      ≡ serves node network)
                    × IsWhole (length events) (
                        happen_all S D js C finish profile rest others W set decode v R wrapping
                          coinjoin_routes
                          (record { node = node; chat = idle })
                          events))))
      main-IsWhole host L id_keys enable_tor tor_proxy events b =
          elim (main-IsSound S D js C finish profile rest keeps host L id_keys enable_tor
            tor_proxy) [
              | inl why ↦ inl why
              | inr (node, (network, (e, s))) ↦ inr (
                node,
                (
                  network,
                  (
                    e,
                    happen_all-IsWhole 0 (length events) _ events (omega arith) b
                        (record { sound = s; counted = idle-IsCounted }),
                  ),
                ),
              )
            ]
