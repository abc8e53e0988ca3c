-- ===== src/Service/Transactions/Attempts.antt =====
-- A request sent again and again under one idempotency key is recorded once at most.
use mathlib.Core.Path.{subst}
use ledger_x.Repo.Atomic.{IsReady, Atomic-cases, Atomic-IsReady}
use ledger_x.Service.Types.{TransactionDto, Env, BalancedInput}
use ledger_x.Prelude.{◌⊎◌, ◌≡◌, ◌∷◌, ◌∙◌, true, str_eq, refl, inr, inl, false, [], List, Bool}
use ledger_x.Service.Transactions.AllOrNothing.{create_balanced-Atomic, Created}
use ledger_x.Service.Transactions.Retry.{Created-find_key}
use ledger_x.Repo.Models.{Database}
use ledger_x.Repo.World.{World, Fault}
use ledger_x.Service.Transactions.Create.{create_balanced}
use ledger_x.Prelude.Select.{exists_row_found, exists_row}
use ledger_x.Repo.Idempotency.{is_key}

-- One request sent again and again, each time under its own pattern of faults.
pub attempts : Env → BalancedInput → List (List Fault) → World → World
attempts env input [] w = w
attempts env input (fs ∷ later) w =
    attempts env input later (create_balanced env input (record w { faults = fs })).1

module _ (env : Env) (input : BalancedInput) (keyed : str_eq input.idempotency_key "" ≡ false) where
  abbrev taken : Database → Bool
  taken d = exists_row (is_key input.user_id input.idempotency_key) d.idempotency_keys

  attempt_once :
      (w : World) (fs : List Fault)
      → IsReady w
      → let w' = (create_balanced env input (record w { faults = fs })).1 in
        IsReady w' × ((w'.db ≡ w.db) ⊎ ((dto : TransactionDto) × Created env input w.db dto w'.db))
  attempt_once w fs ready =
      let v : World = record w { faults = fs } in
      let a =
        create_balanced-Atomic env input v
          (record { idle = ready.idle; balanced = ready.balanced }) in
      (Atomic-IsReady ready.balanced a, Atomic-cases a)

  Created-taken :
      (d d' : Database) (dto : TransactionDto) → Created env input d dto d' → taken d' ≡ true
  Created-taken d d' dto h =
      exists_row_found (is_key input.user_id input.idempotency_key) d'.idempotency_keys _
        (Created-find_key env input d d' dto keyed h)

  -- Once the key is taken no attempt is recorded.
  attempts-taken :
      (later : List (List Fault)) (w : World)
      → IsReady w
      → taken w.db ≡ true
      → (attempts env input later w).db ≡ w.db
  unfolding attempts
  attempts-taken [] w ready h = refl
  attempts-taken (fs ∷ later) w ready h =
      let w' = (create_balanced env input (record w { faults = fs })).1 in
      let (ready', step) = attempt_once w fs ready in
      let same : w'.db ≡ w.db = unchanged w'.db step in
      attempts-taken later w' ready' (rw same h) ∙ same
    where
      unchanged :
          (d' : Database)
          → (d' ≡ w.db) ⊎ ((dto : TransactionDto) × Created env input w.db dto d')
          → d' ≡ w.db
      unchanged d' (inl e) = e
      unchanged d' (inr (dto, created)) = cc (created.claimed.is_new keyed)

  -- When no transaction is open and every transaction balances, a request sent any number of
  -- times under one non-empty idempotency key, each time under any faults, leaves the tables as
  -- they were or with the request recorded once.
  pub attempts_once :
      (later : List (List Fault)) (w : World)
      → IsReady w
      → let d' = (attempts env input later w).db in
        (d' ≡ w.db) ⊎ ((dto : TransactionDto) × Created env input w.db dto d')
  unfolding attempts
  attempts_once [] w ready = inl refl
  attempts_once (fs ∷ later) w ready =
      let w' = (create_balanced env input (record w { faults = fs })).1 in
      let (ready', step) = attempt_once w fs ready in
      settled w' ready' step (attempts_once later w' ready')
    where
      settled :
          (w' : World)
          → IsReady w'
          → (w'.db ≡ w.db) ⊎ ((dto : TransactionDto) × Created env input w.db dto w'.db)
          → ((attempts env input later w').db ≡ w'.db)
            ⊎ ((dto : TransactionDto) × Created env input w'.db dto
                  (attempts env input later w').db)
          → ((attempts env input later w').db ≡ w.db)
            ⊎ ((dto : TransactionDto) × Created env input w.db dto (attempts env input later w').db)
      settled w' ready' (inl same) rest =
          subst
            (λ x.
              ((attempts env input later w').db ≡ x)
              ⊎ ((dto : TransactionDto) × Created env input x dto (attempts env input later w').db))
            same rest
      settled w' ready' (inr (dto, created)) rest =
          inr (
            dto,
            rw (attempts-taken later w' ready' (Created-taken w.db w'.db dto created)) created,
          )
