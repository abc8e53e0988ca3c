-- ===== src/Service/Transactions/ReverseSucceeds.antt =====
-- A reversal when nothing fails.
use ledger_x.Prelude.{◌≡◌, ℕ, none}
use ledger_x.Service.Transactions.Accepted.{EncodesAt}
use ledger_x.Repo.Models.{Transaction, Database}
use ledger_x.Service.Types.{TransactionDto, ReverseInput, Env}
use ledger_x.Repo.World.{World}
use ledger_x.Service.Transactions.Claimed.{Claimed}
use ledger_x.Service.Transactions.ReversalRecorded.{ReversalRecorded}
use ledger_x.Service.Transactions.Reversed.{Reversed}

module _ (env : Env) (n : ℕ) (m : EncodesAt env env.go_now n) (input : ReverseInput)
    (orig : Transaction) where
  abbrev Effect : Database → TransactionDto → World → Type 0
  Effect d dto w = Reversed env input d dto w.db × (w.saved ≡ none)
