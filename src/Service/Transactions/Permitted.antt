-- ===== src/Service/Transactions/Permitted.antt =====
-- What the checks of createBalanced let through: each leg's account, owner, state and currency.
use ledger_x.Prelude.{
  [], inr, ◌∷◌, ◌++◌, All, inl, List, Bool-cases, ℕ, String, Bool, true, false, not, ◌&&◌, some,
  ◌==◌, ◌≡◌, refl, str_eq,
}
use ledger_x.Repo.Models.{Account, Database}
use ledger_x.Repo.World.{is_no_rows, err, ok, Result, World}
use ledger_x.Repo.Accounts.{find_external, is_external, find_account}
use mathlib.Core.List.{append-nil}
use ledger_x.Repo.Outcome.{
  Yields-err, NoRows, Yields-ok, Ends, attempt-Ends, Yields, bind-Yields, attempt-Yields,
  found-Yields, raise_if-Yields, Ends-Yields, weaken-Yields,
}
use ledger_x.Repo.Rows.{
  create_external_account-Yields, get_external_account-Ends, RowRead, get_account-Ends,
}
use ledger_x.Service.Types.{BalancedInput, Leg}
use ledger_x.Service.Transactions.Legs.{
  sum_from, resolve_external, resolve_legs, external_or_create, check_legs, check_leg,
}
use ledger_x.Int64.{neg64}
use ledger_x.Prelude.Int.{pos}

-- A leg that the user may post: the account is there, theirs, active, and in the currency of the
-- transaction unless it is the external one.
pub record Permitted (d : Database) (uid : ℕ) (currency : String) (l : Leg) : Type 0 where
  pub account : Account
  pub known : find_account l.account_id d ≡ some account
  pub owned : (account.user_id == uid) ≡ true
  pub active : account.is_active ≡ true
  pub same_currency :
      (not (is_external account.kind) && not (str_eq account.currency currency)) ≡ false

not-false : (b : Bool) → not b ≡ false → b ≡ true
not-false true h = refl
not-false false h = cc

check_leg-Yields :
    (uid : ℕ) (currency : String) (l : Leg) (w : World)
    → Yields (λ _ w'. Permitted w.db uid currency l × (w'.db ≡ w.db)) (check_leg uid currency l w)
unfolding check_leg
check_leg-Yields uid currency l w =
    bind-Yields _ _ _ w (attempt-Yields _ w (Ends-Yields _ (get_account-Ends l.account_id w)))
      λ r w1 read.
        bind-Yields (RowRead (find_account l.account_id w.db) w.db) _ _ w1
          (found-Yields _ r w1 read)
          λ acc w2 got. bind-Yields _ _ _ w2 (raise_if-Yields _ _ w2) λ _ w3 (owned, same3).
            bind-Yields _ _ _ w3 (raise_if-Yields _ _ w3) λ _ w4 (active, same4).
              weaken-Yields _ _ (raise_if-Yields _ _ w4) λ _ w5 (matches, same5). (
                record {
                  account = acc;
                  known = got.read;
                  owned = not-false _ owned;
                  active = not-false _ active;
                  same_currency = matches;
                },
                rw (same5, same4, same3) got.same,
              )

pub check_legs-Yields :
    (uid : ℕ) (currency : String) (legs : List Leg) (w : World)
    → Yields
        (λ _ w'. All (Permitted w.db uid currency) legs × (w'.db ≡ w.db))
        (check_legs uid currency legs w)
unfolding check_legs
check_legs-Yields uid currency [] w = Yields-ok _ _ (tt, refl)
check_legs-Yields uid currency (l ∷ legs) w =
    bind-Yields _ _ _ w (check_leg-Yields uid currency l w) λ _ w1 (permitted, same).
      weaken-Yields _ _ (check_legs-Yields uid currency legs w1)
        λ _ w2 (rest, same2). ((permitted, rw same at rest), rw (same2, same) refl)

-- Accounts are added at the end at most, and no other table is written.
pub record AccountsGrown (d d' : Database) : Type 0 where
  pub extra : List Account
  pub same : d' ≡ record d { accounts = d.accounts ++ extra }

not_grown : (d d' : Database) → d' ≡ d → AccountsGrown d d'
not_grown d d' e = record { extra = []; same = rw append-nil e }

-- Step 2 leaves the legs alone, or adds one on the external account that offsets their sum; it
-- writes to the accounts at most.
pub record LegsResolved (input : BalancedInput) (d : Database) (legs : List Leg) (w : World)
    : Type 0 where
  pub grown : AccountsGrown d w.db
  pub as_given : input.use_external_leg ≡ false → legs ≡ input.legs
  pub offset :
      input.use_external_leg ≡ true
      → (ext : ℕ) × (legs
          ≡ input.legs
            ++ record { account_id = ext; amount_minor = neg64 (sum_from (pos 0) input.legs) } ∷ [])

external_or_create-Yields :
    (uid : ℕ) (currency : String) (d : Database) (r : Result Account) (w : World)
    → Ends (RowRead (find_external uid d) d) (NoRows (λ w'. w'.db ≡ d)) (r, w)
    → Yields (λ _ w'. AccountsGrown d w'.db) (external_or_create uid currency r w)
unfolding external_or_create
external_or_create-Yields uid currency d (ok ext) w h = Yields-ok _ w (not_grown d w.db h.at.same)
external_or_create-Yields uid currency d (err e) w h = elim (Bool-cases (is_no_rows e)) [
  | inl missing ↦ rw missing (
      bind-Yields _ _ _ w (create_external_account-Yields uid currency w) λ a w' added.
        Yields-ok _ w' (record { extra = a ∷ []; same = rw (added.added, h.at missing) refl }))
  | inr other ↦ rw other (Yields-err _ w)
]

resolve_external-Yields :
    (uid : ℕ) (currency : String) (w : World)
    → Yields (λ _ w'. AccountsGrown w.db w'.db) (resolve_external uid currency w)
unfolding resolve_external
resolve_external-Yields uid currency w =
    bind-Yields _ _ _ w (attempt-Ends _ w (get_external_account-Ends uid w))
      λ r w' read. external_or_create-Yields uid currency w.db r w' read

pub resolve_legs-Yields :
    (input : BalancedInput) (w : World) → Yields (LegsResolved input w.db) (resolve_legs input w)
unfolding resolve_legs
resolve_legs-Yields input w = elim (Bool-cases input.use_external_leg) [
  | inl offsets ↦ rw offsets (
      bind-Yields _ _ _ w (resolve_external-Yields input.user_id input.currency w) λ ext w' same.
        Yields-ok _ w' (record { grown = same; as_given = λ e. cc; offset = λ _. (ext, refl) }))
  | inr plain ↦ rw plain (
      Yields-ok _ w
        (record { grown = not_grown w.db w.db refl; as_given = λ _. refl; offset = λ e. cc }))
]
