-- ===== src/Service/Transactions/Tests.antt =====
-- Requests that succeed on the sample world.
use ledger_x.Service.Transactions.Effects.{
  legs_on, created_legs, create_moves, IsMovable, transferred, transfer_moves, IsUsable,
}
use ledger_x.Service.Transactions.Accepted.{EncodesAt, EncodesAt}
use ledger_x.Prelude.{
  ◌&&◌, true, leb, if◌then◌else◌, Bool, none, ◌≡◌, ℕ, some, refl, inl, arith, [], String,
}
use ledger_x.Service.Types.{GoTime, Env, TransactionDto}
use ledger_x.Service.Samples.{sample_create, sample_world, sample_transfer, sample_db, account}
use ledger_x.Service.Transactions.Ownership.{account_sum}
use ledger_x.Repo.Accounts.{find_account}
use ledger_x.Repo.Models.{external, normal}
use ledger_x.Repo.World.{ok}
use ledger_x.Service.Tests.{above_min, storing_env, sample-IsReady}
use ledger_x.Service.Transactions.Create.{create, transfer}
use ledger_x.Prelude.Int.{pos, ◌+ℤ◌}

-- An instant up to a thousand nanoseconds is encoded here, and no later one.
abbrev early : GoTime → Bool
early t = leb t.instant 1000

abbrev early_env : Env
early_env = record storing_env {
  go_now = 900;
  marshal_dto = λ d. if early d.occurred_at && early d.created_at then some d.note else none;
  marshal_event = λ e. if early e.occurred_at then some e.currency else none;
}

-- The requests of the samples happen at 700 or 0, in a transaction that begins at 1000.
early-Encodes :
    (occurred created : ℕ)
    → leb occurred 1000 ≡ true
    → leb created 1000 ≡ true
    → EncodesAt early_env occurred created
early-Encodes occurred created h k = (
  λ dto e f. (dto.note, rw (e, f) (rw (h, k) refl)),
  λ event e. (event.currency, rw e (rw h refl)),
)

own_account :
    (id : ℕ) (name : String)
    → find_account id sample_db ≡ some (account id 1 name normal)
    → IsUsable sample_db 1 "USD" id
own_account id name known = record {
  account = account id 1 name normal;
  known = known;
  owned = refl;
  active = refl;
  same_currency = refl;
}

transfer_moves_example :
    let r = transfer early_env sample_transfer sample_world in
    (dto : TransactionDto) × ((r.0 ≡ ok dto)
      × (account_sum 2 r.1.db.postings ≡ account_sum 2 [] +ℤ transferred sample_transfer 2))
transfer_moves_example =
    transfer_moves early_env sample_transfer sample_world 2 (early-Encodes _ _ refl refl) refl
      sample-IsReady refl (own_account 1 "cash" refl) (own_account 2 "bank" refl) refl
      (ground arith, ground arith) refl (inl refl)

own_external : IsUsable sample_db 1 "USD" 4
own_external = record {
  account = account 4 1 "External" external;
  known = refl;
  owned = refl;
  active = refl;
  same_currency = refl;
}

amount_fits : IsMovable (pos 500)
amount_fits = ((ground arith, ground arith), (above_min (pos 500) (ground arith), refl))

create_moves_example :
    let r = create early_env sample_create sample_world in
    (dto : TransactionDto) × ((r.0 ≡ ok dto)
      × (account_sum 1 r.1.db.postings
          ≡ account_sum 1 []
            +ℤ legs_on 1 (created_legs sample_create (account 4 1 "External" external))))
create_moves_example =
    create_moves early_env sample_create sample_world 1 (account 4 1 "External" external)
      (early-Encodes _ _ refl refl) refl sample-IsReady refl refl (own_account 1 "cash" refl)
      own_external amount_fits (inl refl)
