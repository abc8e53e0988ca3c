-- ===== src/Repo/Transactions.antt =====
-- internal/repo/sqlc/transactions.sql.go: headers and postings.
use ledger_x.Prelude.{
  ℕ, ◌+◌, String, Bool, true, false, ◌&&◌, Option, none, some, List, [], ◌∷◌, ◌++◌, ◌==◌, ltb,
  if◌then◌else◌,
}
use ledger_x.Prelude.Int.{ℤ, pos, eq_ℤ}
use ledger_x.Prelude.Select.{find_row, exists_row, where_rows, order_by}
use ledger_x.Repo.Models.{Transaction, Posting, Database}
use ledger_x.Repo.World.{
  ok, err, unique_violation, foreign_key_violation, check_violation, Action, one_row, call,
}
use ledger_x.Repo.Accounts.{user_exists}

pub record HeaderParams : Type 0 where
  pub user_id : ℕ
  pub currency : String
  pub category_id : Option ℕ
  pub occurred_at : ℕ
  pub note : Option String
  pub reversal_of : Option ℕ

abbrev pub reverses : ℕ → Option ℕ → Bool
reverses t none = false
reverses t (some r) = r == t

abbrev pub find_transaction : ℕ → List Transaction → Option Transaction
find_transaction id = find_row (λ (t : Transaction). t.id == id)

abbrev pub transaction_exists : ℕ → List Transaction → Bool
transaction_exists id = exists_row (λ (t : Transaction). t.id == id)

-- UNIQUE (reversal_of): NULLs do not conflict.
abbrev pub reversal_taken : Option ℕ → List Transaction → Bool
reversal_taken none ts = false
reversal_taken (some r) ts = exists_row (λ (t : Transaction). reverses r t.reversal_of) ts

-- reversal_of REFERENCES transactions(id)
abbrev pub reversal_known : Option ℕ → List Transaction → Bool
reversal_known none ts = true
reversal_known (some r) ts = transaction_exists r ts

unfoldable pub insert_header : HeaderParams → Action Transaction
insert_header p w =
    let row : Transaction = record {
      id = w.seqs.transactions;
      user_id = p.user_id;
      currency = p.currency;
      category_id = p.category_id;
      occurred_at = p.occurred_at;
      note = p.note;
      reversal_of = p.reversal_of;
      created_at = w.now;
    } in
    let w' = record w { seqs = record w.seqs { transactions = w.seqs.transactions + 1 } } in
    if reversal_taken p.reversal_of w.db.transactions
    then (err unique_violation, w')
    else if user_exists w.db p.user_id && reversal_known p.reversal_of w.db.transactions
    then (ok row, record w' { db = record w.db { transactions = w.db.transactions ++ row ∷ [] } })
    else (err foreign_key_violation, w')

unfoldable pub create_transaction_header : HeaderParams → Action Transaction
create_transaction_header p = call (insert_header p)

abbrev pub account_exists : Database → ℕ → Bool
account_exists d id = exists_row (λ a. a.id == id) d.accounts

-- A new posting also queues the deferred trigger for its transaction.
unfoldable pub insert_posting : ℕ → ℕ → ℤ → Action Posting
insert_posting t a amount w =
    let row : Posting = record {
      id = w.seqs.postings;
      transaction_id = t;
      account_id = a;
      amount_minor = amount;
      created_at = w.now;
    } in
    let w' = record w { seqs = record w.seqs { postings = w.seqs.postings + 1 } } in
    if eq_ℤ amount (pos 0)
    then (err check_violation, w')
    else if transaction_exists t w.db.transactions && account_exists w.db a
    then (
      ok row,
      record w' {
        db = record w.db { postings = w.db.postings ++ row ∷ [] };
        deferred = t ∷ w.deferred;
      },
    )
    else (err foreign_key_violation, w')

unfoldable pub create_posting : ℕ → ℕ → ℤ → Action Posting
create_posting t a amount = call (insert_posting t a amount)

abbrev pub find_owned_transaction : ℕ → ℕ → Database → Option Transaction
find_owned_transaction id uid d =
    find_row (λ (t : Transaction). t.id == id && t.user_id == uid) d.transactions

unfoldable pub get_transaction_for_user : ℕ → ℕ → Action Transaction
get_transaction_for_user id uid = call (λ w. one_row (find_owned_transaction id uid w.db) w)

-- ORDER BY id
abbrev pub postings_of : ℕ → List Posting → List Posting
postings_of t ps =
    order_by (λ (p : Posting) (q : Posting). ltb p.id q.id)
      (where_rows (λ (p : Posting). p.transaction_id == t) ps)

unfoldable pub list_postings_by_transaction : ℕ → Action (List Posting)
list_postings_by_transaction t = call (λ w. (ok (postings_of t w.db.postings), w))
