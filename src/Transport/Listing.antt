-- ===== src/Transport/Listing.antt =====
-- ListAccountEntries of internal/transport/http/transactions.go, with parseInt of users.go.
pub mod Complete
use ledger_x.Prelude.{
  ◌++◌, zero, suc, [], ◌==◌, some, none, ltb, length, if◌then◌else◌, Option, List, ℕ,
}
use ledger_x.Repo.Models.{Database, Account}
use ledger_x.Repo.Entries.{page_of, list_account_entries, last_row, cursor_of, EntryRow, Cursor}
use ledger_x.Transport.Handlers.{
  status_of, replied, rejected, path_id, owned_account, authorized, Response, Handler,
}
use ledger_x.Repo.World.{ok, err, World, Result}

-- parseInt, where a text that is no number or a negative one gives the default.
abbrev pub limit_of : Option ℕ → ℕ
limit_of none = 20
limit_of (some n) = if ltb 100 n then 100 else n

pub record EntriesPage : Type 0 where
  pub entries : List EntryRow
  pub next_cursor : Option Cursor

-- A full page has a next one, from its last row. With the limit 0 there is no last row: the index
-- panics, and the Recoverer of the router answers 500.
abbrev pub listed : ℕ → List EntryRow → Response EntriesPage
listed limit rows =
    if length rows == limit
    then (elim (last_row rows) [
      | none ↦ rejected 500
      | some e ↦ replied 200 (record { entries = rows; next_cursor = some (cursor_of e) })
    ])
    else replied 200 (record { entries = rows; next_cursor = none })

abbrev pub or_db_page : ℕ → Result (List EntryRow) × World → Response EntriesPage × World
or_db_page limit (ok rows, w) = (listed limit rows, w)
or_db_page limit (err e, w) = (rejected 500, w)

-- The cursor arrives decoded: `none` where it is malformed.
abbrev pub entries_of_owned :
    ℕ → ℕ → Option Cursor → Result Account × World → Response EntriesPage × World
entries_of_owned id limit cursor (err e, w) = (rejected (status_of e), w)
entries_of_owned id limit none (ok acc, w) = (rejected 400, w)
entries_of_owned id limit (some c) (ok acc, w) =
    or_db_page limit (list_account_entries id c limit w)

unfoldable pub list_entries : Option ℕ → Option ℕ → Option ℕ → Option Cursor → Handler EntriesPage
list_entries token id limit cursor = authorized token λ uid.
    path_id id λ acc. λ w. entries_of_owned acc (limit_of limit) cursor (owned_account uid acc w)

-- A client that asks ListAccountEntries for page after page with a user's token, each from the
-- cursor of the one before, and joins the pages.
unfoldable pub browse : ℕ → ℕ → ℕ → Option ℕ → Cursor → World → List EntryRow
browse zero uid id limit c w = []
browse (suc fuel) uid id limit c w =
    let (r, w') = list_entries (some uid) (some id) limit (some c) w in
    elim r [
      | rejected status ↦ []
      | replied status page ↦ elim page.next_cursor [
        | none ↦ page.entries
        | some next ↦ page.entries ++ browse fuel uid id limit next w'
      ]
    ]
