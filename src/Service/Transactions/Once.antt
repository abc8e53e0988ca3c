-- ===== src/Service/Transactions/Once.antt =====
-- No transaction is reversed twice.
use ledger_x.Prelude.{
  ◌⊎◌, ◌≡◌, ◌==◌, ◌&&◌, ℕ, true, some, inr, inl, false, arith, ap, List, ==_refl, ==_iff,
}
use ledger_x.Repo.Atomic.{Atomic-IsReady, IsReady, Atomic-cases}
use ledger_x.Repo.Models.{Transaction, Database}
use ledger_x.Service.Types.{TransactionDto, ReverseInput, Env}
use ledger_x.Service.Transactions.Reversed.{reverse-Atomic, Reversed}
use ledger_x.Repo.World.{Fault, World}
use ledger_x.Prelude.Select.{exists_row_last, find_row_holds}
use ledger_x.Repo.Transactions.{reverses, reversal_taken, find_owned_transaction}
use ledger_x.Service.Transactions.Reverse.{reverse}

-- The lookup by id and user finds the id that was asked for.
pub find_owned_id :
    (id uid : ℕ) (d : Database) (t : Transaction)
    → find_owned_transaction id uid d ≡ some t
    → t.id ≡ id
find_owned_id id uid d t h =
    let passes =
      find_row_holds (λ (x : Transaction). x.id == id && x.user_id == uid) d.transactions t h in
    (==_iff t.id id).0 (ground arith)

-- When no transaction is open, every transaction balances and the transaction already has a
-- reversal, Reverse under any faults leaves the tables as they are.
pub reverse_taken :
    (env : Env) (input : ReverseInput) (w : World)
    → IsReady w
    → reversal_taken (some input.transaction_id) w.db.transactions ≡ true
    → (reverse env input w).1.db ≡ w.db
reverse_taken env input w ready taken =
    unchanged (reverse env input w).1.db (Atomic-cases (reverse-Atomic env input w ready))
  where
    unchanged :
        (d' : Database)
        → (d' ≡ w.db) ⊎ ((dto : TransactionDto) × Reversed env input w.db dto d')
        → d' ≡ w.db
    unchanged d' (inl same) = same
    unchanged d' (inr (dto, h)) =
        let r = h.recorded in
        let same : h.between.transactions ≡ w.db.transactions =
          ap (λ x. x.transactions) h.claimed.claimed in
        let id : r.original.id ≡ input.transaction_id =
          find_owned_id input.transaction_id input.user_id h.between r.original r.original_found in
        let first : reversal_taken (some input.transaction_id) w.db.transactions ≡ false =
          rw (← id, ← same) r.first_reversal in
        cc

-- A committed reversal has taken its original.
Reversed-taken :
    (env : Env) (input : ReverseInput) (d d' : Database) (dto : TransactionDto)
    → Reversed env input d dto d'
    → reversal_taken (some input.transaction_id) d'.transactions ≡ true
Reversed-taken env input d d' dto h =
    let r = h.recorded in
    let id : r.original.id ≡ input.transaction_id =
      find_owned_id input.transaction_id input.user_id h.between r.original r.original_found in
    let it : reverses input.transaction_id r.header.reversal_of ≡ true =
      rw (r.header_reverses, id) (==_refl input.transaction_id) in
    rw r.header_added (
      exists_row_last (λ (t : Transaction). reverses input.transaction_id t.reversal_of)
        h.between.transactions r.header it)

-- When no transaction is open and every transaction balances, of two requests to reverse one
-- transaction, from any users and under any keys and faults, at most one changes the tables.
pub reverse_twice :
    (env : Env) (first second : ReverseInput) (w : World) (faults : List Fault)
    → IsReady w
    → second.transaction_id ≡ first.transaction_id
    → let w' = (reverse env first w).1 in
      (w'.db ≡ w.db) ⊎ ((reverse env second (record w' { faults = faults })).1.db ≡ w'.db)
reverse_twice env first second w faults ready same =
    let atomic = reverse-Atomic env first w ready in
    let ready' = Atomic-IsReady ready.balanced atomic in
    elim (Atomic-cases atomic) [
      | inl unchanged ↦ inl unchanged
      | inr (dto, h) ↦ inr (
          reverse_taken env second (record (reverse env first w).1 { faults = faults })
            (record { idle = ready'.idle; balanced = ready'.balanced })
            (rw same (Reversed-taken env first w.db _ dto h)))
    ]
