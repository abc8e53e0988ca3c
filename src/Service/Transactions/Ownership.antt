-- ===== src/Service/Transactions/Ownership.antt =====
-- No request touches the balance of another user's account.
use ledger_x.Prelude.Int.{ℤ, pos, +ℤ-zero}
use ledger_x.Prelude.{
  ◌⊎◌, ◌≡◌, ◌∷◌, ◌∙◌, ◌==◌, ℕ, true, sym, some, refl, map, inr, inl, false, [], String, List,
  Bool-cases, All, ==_iff,
}
use ledger_x.Repo.Models.{Posting, Database, Account}
use ledger_x.Repo.Atomic.{IsReady, Atomic-cases}
use ledger_x.Service.Types.{TransactionDto, Env, BalancedInput}
use ledger_x.Service.Transactions.AllOrNothing.{create_balanced-Atomic, Created}
use ledger_x.Service.Transactions.Permitted.{Permitted}
use ledger_x.Repo.World.{World}
use ledger_x.Service.Transactions.Create.{create_balanced}
use ledger_x.Repo.Accounts.{find_account}
use ledger_x.Prelude.Select.{sum_where-append, sum_where, find_row-append_left}
use ledger_x.Service.Transactions.Written.{leg_of}

-- The sum of an account's postings: its balance.
abbrev pub account_sum : ℕ → List Posting → ℤ
account_sum a = sum_where (λ p. p.account_id == a) (λ p. p.amount_minor)

foreign_rows :
    (d : Database) (uid a : ℕ) (currency : String) (acc : Account) (rows : List Posting)
    → find_account a d ≡ some acc
    → (acc.user_id == uid) ≡ false
    → All (Permitted d uid currency) (map leg_of rows)
    → account_sum a rows ≡ pos 0
foreign_rows d uid a currency acc [] known other h = refl
foreign_rows d uid a currency acc (p ∷ rows) known other (permitted, rest) =
    elim (Bool-cases (p.account_id == a)) [
      | inl same ↦
          let e : p.account_id ≡ a = (==_iff p.account_id a).0 same in
          let found_acc : some permitted.account ≡ some acc = sym permitted.known ∙ rw e known in
          let it : permitted.account ≡ acc = cc in
          let owned : (acc.user_id == uid) ≡ true = rw (← it) permitted.owned in cc
      | inr differs ↦ rw differs (foreign_rows d uid a currency acc rows known other rest)
    ]

-- When no transaction is open and every transaction balances, createBalanced under any faults
-- leaves the balance of every account of another user as it was.
pub create_balanced_foreign :
    (env : Env) (input : BalancedInput) (w : World) (a : ℕ) (acc : Account)
    → IsReady w
    → find_account a w.db ≡ some acc
    → (acc.user_id == input.user_id) ≡ false
    → account_sum a (create_balanced env input w).1.db.postings ≡ account_sum a w.db.postings
create_balanced_foreign env input w a acc ready known other =
    kept (create_balanced env input w).1.db
      (Atomic-cases (create_balanced-Atomic env input w ready))
  where
    kept :
        (d' : Database)
        → (d' ≡ w.db) ⊎ ((dto : TransactionDto) × Created env input w.db dto d')
        → account_sum a d'.postings ≡ account_sum a w.db.postings
    kept d' (inl same) = rw same refl
    kept d' (inr (dto, created)) =
        let r = created.recorded in
        let k = created.claimed.claimed in
        let known' : find_account a d' ≡ some acc =
          rw (r.accounts_added, k) (find_row-append_left _ w.db.accounts r.extra acc known) in
        let nothing : account_sum a r.rows ≡ pos 0 =
          foreign_rows d' input.user_id a input.currency acc r.rows known' other
            (rw r.rows_legs r.permitted) in
        rw (r.rows_added, k, sum_where-append) (rw nothing (+ℤ-zero _))
