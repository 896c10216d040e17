-- ===== src/Api/Faucet/Tasks/Wiped.antt =====
-- Two claims of `handle_faucet` of src/main.rs for one account that is not there yet.
use hancoin.Prelude.{
  ℕ, ◌≡◌, refl, ap, ◌∙◌, String, [], ◌∷◌, ◌++◌, none, some, arith, nat_eq, false, replicate,
}
use hancoin.Machine.{Profile, Clock}
use hancoin.Stores.{get-insert_self}
use hancoin.Account.{default}
use hancoin.Ledger.{Stores, Ledger, stored}
use hancoin.Api.{reply}
use hancoin.Api.Faucet.{FaucetReply, claim}
use hancoin.Api.Faucet.Money.{balance_of}
use hancoin.Api.Faucet.Tasks.{
  Task, asking, missing, found, done, put_account, advance, System, turn, run,
}
use hancoin.Api.Faucet.Tasks.Alone.{run-claim}

module _ (S : Stores) (profile : Profile) where
  -- What a turn does to its own task, and that it leaves the others.
  turn_lem :
      (s : System S) (n : ℕ) (l : Ledger S) (t u : Task)
      → s.tasks n ≡ t
      → advance S profile s.ledger t ≡ (l, u)
      → ((turn S profile s n).ledger ≡ l)
        × ((turn S profile s n).tasks n ≡ u)
        × ((m : ℕ) → nat_eq n m ≡ false → (turn S profile s n).tasks m ≡ s.tasks m)
  unfolding turn
  turn_lem s n l t u e a =
      let r : advance S profile s.ledger (s.tasks n) ≡ (l, u) =
        ap (advance S profile s.ledger) e ∙ a in
      (ap (λ (x : Ledger S × Task). x.0) r, ground (arith, r), (λ m d. ground arith))

  -- One claim finds that its account is missing; another for the same account is paid, and is told
  -- so; then the first creates the account. The payment is gone: the account is a new one, which holds
  -- nothing.
  pub payment_is_wiped :
      (s : System S) (n m : ℕ) (id : String) (now_n now_m : ℕ) (created_n created_m : Clock)
      (a : FaucetReply)
      → nat_eq n m ≡ false
      → s.tasks n ≡ asking id now_n created_n
      → s.tasks m ≡ asking id now_m created_m
      → stored S s.ledger id ≡ none
      → (claim S profile s.ledger id now_m created_m).0 ≡ reply a
      → let r = run S profile s (n ∷ replicate 5 m ++ n ∷ []) in
        (r.tasks m ≡ done id (reply a))
        × (r.tasks n ≡ found id now_n (default created_n))
        × (stored S r.ledger id ≡ some (default created_n))
        × (balance_of S r.ledger id ≡ 0)
  unfolding run advance default
  payment_is_wiped s n m id now_n now_m created_n created_m a ne tn tm none_there paid =
      let s1 : System S = turn S profile s n in
      let one =
        turn_lem s n s.ledger _ (missing id now_n created_n) tn (rw (none_there, advance) refl) in
      let s2 : System S = run S profile s1 (replicate 5 m) in
      let two = run-claim S profile s1 m id now_m created_m (one.2 m ne ∙ tm) in
      let l : Ledger S = put_account S s2.ledger id (default created_n) in
      let three =
        turn_lem s2 n l _ (found id now_n (default created_n)) (two.2 n (ground arith) ∙ one.1)
          refl in
      let there : stored S (turn S profile s2 n).ledger id ≡ some (default created_n) =
        ap (λ (k : Ledger S). stored S k id) three.0
        ∙ get-insert_self S.accounts s2.ledger.accounts id (default created_n) in
      (
        three.2 m ne
            ∙ two.1
            ∙ ap (λ (k : Ledger S). done id (claim S profile k id now_m created_m).0) one.0
            ∙ ap (done id) paid,
        three.1,
        there,
        ground (arith, there),
      )
