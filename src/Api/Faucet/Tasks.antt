-- ===== src/Api/Faucet/Tasks.antt =====
-- Claims of `handle_faucet` of src/main.rs as tasks that run at the same time: each access to the
-- ledger is a turn of its own, and the turns of different tasks come in any order.
pub mod Counts
pub mod Paid
pub mod Bounds
pub mod Alone
pub mod Wiped
pub mod InTurn
use hancoin.Prelude.{ℕ, String, List, [], ◌∷◌, none, some, nat_eq, if◌then◌else◌}
use hancoin.Machine.{Profile, Clock}
use hancoin.Account.{Account, default, faucet_daily_limit}
use hancoin.Ledger.{Stores, Ledger, stored, new}
use hancoin.Api.{Outcome, reply, reject, panic}
use hancoin.Api.Faucet.{FaucetReply, Grant, saturating_add, decide}
use hancoin.Api.Faucet.Runs.{Asked}

-- Where a claim stands, with the local variables that are live there. Its checks on who asks are
-- passed, and the clock is read.
pub data Task : Type 0 where
  -- before `accounts.get`
  asking : (id : String) (now : ℕ) (created : Clock) → Task
  -- before the `insert` of a new account
  missing : (id : String) (now : ℕ) (created : Clock) → Task
  -- before `issued.load`, with the account as it was read
  found : (id : String) (now : ℕ) (account : Account) → Task
  -- before the `insert` of the account that is paid
  granted : (id : String) (now : ℕ) (g : Grant) → Task
  -- before `issued.store`
  written : (id : String) (new_issued : ℕ) (answer : FaucetReply) → Task
  done : (id : String) (answer : Outcome FaucetReply) → Task

abbrev pub update {ℓ} : {A : Type ℓ} → (ℕ → A) → ℕ → A → ℕ → A
update f n a = λ m. if nat_eq n m then a else f m

-- The account as it is written for a grant.
abbrev pub credit : ℕ → Grant → Account
credit now g = record g.account {
  balance = saturating_add g.account.balance faucet_daily_limit;
  last_claim = now;
}

-- After the count is read: the checks, which read nothing more.
abbrev pub decided : String → ℕ → Outcome Grant → Task
decided id now (reply g) = granted id now g
decided id now (reject e) = done id (reject e)
decided id now panic = done id panic

-- The accounts that were paid, the last one first.
abbrev pub log_paid : Task → List String → List String
log_paid (granted id now g) log = id ∷ log
log_paid _ log = log

module _ (S : Stores) where
  abbrev pub put_account : Ledger S → String → Account → Ledger S
  put_account l id account = record l { accounts = S.accounts.insert l.accounts id account }

  -- The next access of a task.
  unfoldable pub advance : Profile → Ledger S → Task → Ledger S × Task
  advance profile l (asking id now created) = elim (stored S l id) [
    | some account ↦ (l, found id now account)
    | none ↦ (l, missing id now created)
  ]
  advance profile l (missing id now created) =
      (put_account l id (default created), found id now (default created))
  advance profile l (found id now account) =
      (l, decided id now (decide S profile l.issued now account))
  advance profile l (granted id now g) = (
    put_account l id (credit now g),
    written id g.new_issued
        (record { balance = (credit now g).balance; issued = faucet_daily_limit }),
  )
  advance profile l (written id new_issued answer) =
      (record l { issued = new_issued }, done id (reply answer))
  advance profile l (done id answer) = (l, done id answer)

  -- `log` has an account for each write of a paid account.
  pub record System : Type 0 where
    pub ledger : Ledger S
    pub tasks : ℕ → Task
    pub log : List String

  unfoldable pub turn : Profile → System → ℕ → System
  turn profile s n =
      let r = advance profile s.ledger (s.tasks n) in
      record { ledger = r.0; tasks = update s.tasks n r.1; log = log_paid (s.tasks n) s.log }

  -- The tasks take their turns in the order of a schedule.
  unfoldable pub run : Profile → System → List ℕ → System
  run profile s [] = s
  run profile s (n ∷ ns) = run profile (turn profile s n) ns

  -- A new ledger, and tasks that are about to read it.
  abbrev pub begin : (ℕ → Asked) → System
  begin asked = record {
    ledger = new S;
    tasks = λ n. asking (asked n).id (asked n).now (asked n).created;
    log = [];
  }
