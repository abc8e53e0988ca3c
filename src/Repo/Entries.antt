-- ===== src/Repo/Entries.antt =====
-- ListAccountEntries of internal/repo/sqlc/transactions.sql.go: the entries of an account, newest
-- first, a page at a time.
pub mod Pages
pub mod Walk
use ledger_x.Prelude.{
  ◌∷◌, ◌||◌, ◌==◌, ◌&&◌, take, some, none, ltb, [], String, Option, List, Bool, ℕ,
}
use ledger_x.Repo.World.{ok, call, Action}
use ledger_x.Repo.Models.{Transaction, Posting, Database}
use ledger_x.Repo.Transactions.{find_transaction}
use ledger_x.Prelude.Select.{where_rows, order_by}
use ledger_x.Prelude.Int.{ℤ}

pub record EntryRow : Type 0 where
  pub posting_id : ℕ
  pub transaction_id : ℕ
  pub account_id : ℕ
  pub amount_minor : ℤ
  pub currency : String
  pub occurred_at : ℕ
  pub note : Option String
  pub created_at : ℕ

-- Where a page starts: `(occurred_at, id)` of the last row of the page before.
pub record Cursor : Type 0 where
  pub occurred_at : ℕ
  pub posting_id : ℕ

abbrev pub entry_of : Posting → Transaction → EntryRow
entry_of p t = record {
  posting_id = p.id;
  transaction_id = t.id;
  account_id = p.account_id;
  amount_minor = p.amount_minor;
  currency = t.currency;
  occurred_at = t.occurred_at;
  note = t.note;
  created_at = p.created_at;
}

-- JOIN transactions t ON t.id = p.transaction_id
abbrev pub joined : List Transaction → List Posting → List EntryRow
joined ts [] = []
joined ts (p ∷ ps) = elim (find_transaction p.transaction_id ts) [
  | none ↦ joined ts ps
  | some t ↦ entry_of p t ∷ joined ts ps
]

-- (e.occurred_at, e.id) < (c.occurred_at, c.id)
abbrev pub is_before : Cursor → EntryRow → Bool
is_before c e =
    ltb e.occurred_at c.occurred_at
    || (e.occurred_at == c.occurred_at && ltb e.posting_id c.posting_id)

abbrev pub cursor_of : EntryRow → Cursor
cursor_of e = record { occurred_at = e.occurred_at; posting_id = e.posting_id }

-- WHERE account_id = a ORDER BY occurred_at DESC, id DESC
abbrev pub entries_of : ℕ → Database → List EntryRow
entries_of a d =
    order_by (λ (e : EntryRow) (f : EntryRow). is_before (cursor_of e) f)
      (joined d.transactions (where_rows (λ (p : Posting). p.account_id == a) d.postings))

-- … AND (occurred_at, id) < cursor … LIMIT limit
abbrev pub page_of : ℕ → Cursor → ℕ → Database → List EntryRow
page_of a c limit d = take limit (where_rows (is_before c) (entries_of a d))

unfoldable pub list_account_entries : ℕ → Cursor → ℕ → Action (List EntryRow)
list_account_entries a c limit = call λ w. (ok (page_of a c limit w.db), w)

-- last := rows[len(rows)-1]
abbrev pub last_row : List EntryRow → Option EntryRow
last_row [] = none
last_row (e ∷ []) = some e
last_row (e ∷ f ∷ es) = last_row (f ∷ es)
