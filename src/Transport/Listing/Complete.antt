-- ===== src/Transport/Listing/Complete.antt =====
-- Following the cursors of ListAccountEntries.
use mathlib.Core.Path.{subst}
use ledger_x.Prelude.{
  ◌≡◌, ◌∙◌, ◌==◌, ◌<◌, ◌++◌, ℕ, zero, true, suc, some, refl, none, length, inr, inl, if◌then◌else◌,
  false, ap, [], Option, List, Bool-cases,
}
use ledger_x.Repo.Entries.{
  list_account_entries, page_of, last_row, is_before, entries_of, cursor_of, EntryRow, Cursor,
}
use ledger_x.Repo.Models.{Account}
use ledger_x.Transport.Listing.{list_entries, limit_of, listed, browse, EntriesPage}
use ledger_x.Repo.Entries.Pages.{IsFalling}
use ledger_x.Transport.Handlers.{owned_account, replied, rejected, Response}
use ledger_x.Repo.Entries.Walk.{walk_all, walk}
use ledger_x.Prelude.Select.{where_rows}
use ledger_x.Repo.World.{◌>>=◌, found, call, attempt, answer, World}
use ledger_x.Repo.Accounts.{get_account, find_account}
use ledger_x.Service.Samples.{user}

-- The owner's request is answered with the page from the cursor on.
list_entries_runs :
    (uid a : ℕ) (limit : Option ℕ) (c : Cursor) (w : World) (acc : Account)
    → w.faults ≡ []
    → (uid == 0) ≡ false
    → (a == 0) ≡ false
    → find_account a w.db ≡ some acc
    → (acc.user_id == uid) ≡ true
    → list_entries (some uid) (some a) limit (some c) w
      ≡ (listed (limit_of limit) (page_of a c (limit_of limit) w.db), record w { faults = [] })
unfolding list_entries owned_account get_account list_account_entries attempt found call answer
    ◌>>=◌
list_entries_runs uid a limit c w acc h user there known owned =
    rw (user, there, h, known) (rw owned refl)

module _ (uid a m : ℕ) (limit : Option ℕ) (acc : Account) (user : (uid == 0) ≡ false)
    (there : (a == 0) ≡ false) (owned : (acc.user_id == uid) ≡ true)
    (size : limit_of limit ≡ suc m) where
  abbrev after : ℕ → World → Response EntriesPage → List EntryRow
  after fuel w r = elim r [
    | rejected status ↦ []
    | replied status p ↦ elim p.next_cursor [
      | none ↦ p.entries
      | some next ↦ p.entries ++ browse fuel uid a limit next w
    ]
  ]

  abbrev Again : ℕ → World → Type 0
  Again fuel w =
      (c : Cursor) → browse fuel uid a limit c w ≡ walk fuel (suc m) c (entries_of a w.db)

  full :
      (fuel : ℕ) (w : World) (page : List EntryRow) (o : Option EntryRow)
      → Again fuel w
      → after fuel w (elim o [
        | none ↦ rejected 500
        | some e ↦ replied 200 (record { entries = page; next_cursor = some (cursor_of e) })
      ])
        ≡ elim o [
          | none ↦ []
          | some e ↦ page ++ walk fuel (suc m) (cursor_of e) (entries_of a w.db)
        ]
  full fuel w page none again = refl
  full fuel w page (some e) again = ap (λ z. page ++ z) (again (cursor_of e))

  paged :
      (fuel : ℕ) (w : World) (page : List EntryRow)
      → Again fuel w
      → after fuel w (listed (suc m) page) ≡ (
          if length page == suc m
          then (elim (last_row page) [
            | none ↦ []
            | some e ↦ page ++ walk fuel (suc m) (cursor_of e) (entries_of a w.db)
          ])
          else page)
  paged fuel w page again = elim (Bool-cases (length page == suc m)) [
    | inl e ↦ rw e (full fuel w page (last_row page) again)
    | inr e ↦ rw e refl
  ]

  browse-walk :
      (fuel : ℕ) (w : World)
      → w.faults ≡ []
      → find_account a w.db ≡ some acc
      → (c : Cursor) → browse fuel uid a limit c w ≡ walk fuel (suc m) c (entries_of a w.db)
  unfolding browse walk
  browse-walk zero w h known c = refl
  browse-walk (suc fuel) w h known c =
      let quiet : World = record w { faults = [] } in
      let runs : list_entries (some uid) (some a) limit (some c) w
          ≡ (listed (suc m) (page_of a c (suc m) w.db), quiet) =
        subst
          (λ n.
            list_entries (some uid) (some a) limit (some c) w
            ≡ (listed n (page_of a c n w.db), quiet))
          size (list_entries_runs uid a limit c w acc h user there known owned) in
      ap (λ (r : Response EntriesPage × World). after fuel r.1 r.0) runs
      ∙ paged fuel quiet (page_of a c (suc m) w.db) (browse-walk fuel quiet refl known)

-- Without faults, when the entries of a user's account fall strictly by time and posting id, a
-- client that calls ListAccountEntries with the user's token, by pages of at least one row and
-- each time with the cursor of the page before, gets all entries after its first cursor, each
-- once and in order, in at most one more page than there are entries.
pub browse_complete :
    (fuel uid a m : ℕ) (limit : Option ℕ) (acc : Account) (c : Cursor) (w : World)
    → w.faults ≡ []
    → (uid == 0) ≡ false
    → (a == 0) ≡ false
    → find_account a w.db ≡ some acc
    → (acc.user_id == uid) ≡ true
    → limit_of limit ≡ suc m
    → IsFalling (entries_of a w.db)
    → length (where_rows (is_before c) (entries_of a w.db)) < fuel
    → browse fuel uid a limit c w ≡ where_rows (is_before c) (entries_of a w.db)
browse_complete fuel uid a m limit acc c w h user there known owned size falling enough =
    browse-walk uid a m limit acc user there owned size fuel w h known c
    ∙ walk_all fuel m c (entries_of a w.db) falling enough
