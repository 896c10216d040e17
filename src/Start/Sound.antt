-- ===== src/Start/Sound.antt =====
-- What holds of the node of src/main.rs from its start on.
use hancoin.Prelude.{◌≡◌, refl, String, List, [], ◌∷◌, Option, some, inl, inr, Option-cases}
use hancoin.Machine.{Profile, Clock}
use hancoin.Stores.{DashMap}
use hancoin.Account.{Account}
use hancoin.Ledger.{Stores, Ledger, new}
use hancoin.Tor.{configure}
use hancoin.Api.{Outcome, reply, reject, panic, Json, Crypto}
use hancoin.Api.Faucet.{authenticate, handle_faucet}
use hancoin.Api.Faucet.Money.{IsBacked}
use hancoin.Api.Faucet.Issue.{claim-IsBacked, new-IsBacked}
use hancoin.Api.Transfer.{TransferRequest, handle_transfer_lem}
use hancoin.Api.Node.{Request, faucet, balance, transfer, Rest, serve}
use hancoin.Coinjoin.Data.{CoinJoinSession}
use hancoin.Coinjoin.Manager.{Answer, new_manager}
use hancoin.Coinjoin.Manager.Laws.{IsManaged}
use hancoin.Coinjoin.Manager.Life.{apply_all, apply-IsManaged, new_manager-IsManaged}
use hancoin.Start.{
  Node, start, Input, asks_api, asks_coinjoin, handle, handle_all, coinjoin_timeout,
}

module _ (S : Stores) (D : DashMap CoinJoinSession) where
  -- The coins are backed, and the sessions are well formed.
  pub record IsSound (node : Node S D) : Type 0 where
    pub backed : IsBacked S node.ledger
    pub managed : IsManaged D node.coinjoin_manager

  module _ (js : Json) (C : Crypto) {A : Type 0} (finish : CoinJoinSession → Answer A)
      (profile : Profile) where
    handle_faucet-IsBacked_at :
        (o : Outcome String) (req : js.Value) (clock created : Clock) (l : Ledger S)
        → authenticate js C req ≡ o
        → IsBacked S l
        → IsBacked S (handle_faucet S js C profile req clock created l).1
    unfolding handle_faucet
    handle_faucet-IsBacked_at (reject e) req clock created l h v = rw (h, handle_faucet) v
    handle_faucet-IsBacked_at panic req clock created l h v = rw (h, handle_faucet) v
    handle_faucet-IsBacked_at (reply id) req clock created l h v = elim (Option-cases clock) [
      | inl early ↦ rw (h, early, handle_faucet) v
      | inr (now, c) ↦ rw (h, c, handle_faucet) (claim-IsBacked S profile l id now created v)
    ]

    -- What follows the checks of a transfer keeps the ledger backed.
    abbrev pub Keeps : Rest S js C → Type 0
    Keeps rest =
        (t : TransferRequest) (a : Account) (k : C.VerifyingKey) (l : Ledger S)
        → IsBacked S l
        → IsBacked S (rest t a k l).1

    module _ (rest : Rest S js C) (keeps : Keeps rest) where
      pub serve-IsBacked :
          (r : Request S js C) (l : Ledger S)
          → IsBacked S l
          → IsBacked S (serve S js C profile rest l r).1
      unfolding serve
      serve-IsBacked (faucet v clock created) l b =
          handle_faucet-IsBacked_at _ v clock created l refl b
      serve-IsBacked (balance id) l b = b
      serve-IsBacked (transfer v) l b = elim (handle_transfer_lem S js C rest v l) [
        | inl (_, same) ↦ rw same b
        | inr (p, same) ↦ rw same (keeps p.request p.account p.key l b)
      ]

      pub handle-IsSound :
          (node : Node S D) (i : Input S D js C finish)
          → IsSound node
          → IsSound (handle S D js C finish profile rest node i)
      unfolding handle
      handle-IsSound node (asks_api r) v = record {
        backed = serve-IsBacked r node.ledger v.backed;
        managed = v.managed;
      }
      handle-IsSound node (asks_coinjoin c) v = record {
        backed = v.backed;
        managed = apply-IsManaged D finish node.coinjoin_manager c v.managed;
      }

      handle_all-IsSound :
          (node : Node S D) (inputs : List (Input S D js C finish))
          → IsSound node
          → IsSound (handle_all S D js C finish profile rest node inputs)
      unfolding handle_all
      handle_all-IsSound node [] v = v
      handle_all-IsSound node (i ∷ inputs) v =
          handle_all-IsSound (handle S D js C finish profile rest node i) inputs
            (handle-IsSound node i v)

      -- The node starts, whatever its environment says, and after any requests its coins are backed
      -- and its sessions well formed, if what follows the checks of a transfer keeps the coins backed.
      pub start-IsSound :
          (enable_tor tor_proxy : Option String) (inputs : List (Input S D js C finish))
          → (node : Node S D) × (start S D enable_tor tor_proxy ≡ some node)
            × IsSound (handle_all S D js C finish profile rest node inputs)
      unfolding start new
      start-IsSound enable_tor tor_proxy inputs =
          let node : Node S D = record {
            ledger = new S;
            coinjoin_manager = new_manager D coinjoin_timeout;
            tor_config = configure enable_tor tor_proxy;
          } in
          (
            node,
            refl,
            handle_all-IsSound node inputs (record {
              backed = new-IsBacked S;
              managed = unfold apply_all in new_manager-IsManaged D finish coinjoin_timeout [];
            }),
          )
