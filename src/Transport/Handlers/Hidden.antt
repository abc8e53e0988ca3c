-- ===== src/Transport/Handlers/Hidden.antt =====
-- An account of another user looks as one that does not exist.
use ledger_x.Repo.Models.{Database, Account}
use ledger_x.Prelude.{
  ◌⊎◌, ◌≡◌, ◌∙◌, ◌==◌, ℕ, sym, some, refl, not, none, inr, inl, false, Bool-cases,
}
use ledger_x.Service.Types.{Env}
use ledger_x.Repo.World.{
  ◌>>=◌, unacknowledged, raise_if, pure, one_row, next_fault, later_faults, found, fine, failed,
  call, attempt, answer, account_not_found, World, Fault,
}
use ledger_x.Transport.Handlers.{rejected, owned_account, get_current, balance_of_owned, Response}
use ledger_x.Repo.Accounts.{get_account, find_account}
use ledger_x.Prelude.Int.{ℤ}
use ledger_x.Service.Samples.{user}

-- The user `uid` owns no account with this id.
abbrev pub NotOwned : ℕ → ℕ → Database → Type 0
NotOwned uid id d =
    (find_account id d ≡ none)
    ⊎ ((acc : Account) × ((find_account id d ≡ some acc) × ((acc.user_id == uid) ≡ false)))

-- What the user is told, as far as it depends on how the one round trip ends.
abbrev told : Fault → Response ℤ
told fine = rejected 404
told _ = rejected 500

balance_of_owned-told :
    (env : Env) (uid id : ℕ) (w : World)
    → NotOwned uid id w.db
    → (balance_of_owned env id (owned_account uid id w)).0 ≡ told (next_fault w.faults)
unfolding owned_account get_account attempt found call answer ◌>>=◌
balance_of_owned-told env uid id w h = by_fault (next_fault w.faults) h
  where
    by_fault :
        (f : Fault)
        → NotOwned uid id w.db
        → (balance_of_owned env id (
            (attempt (λ v.
                  answer f
                    (λ x. one_row (find_account id x.db) x)
                    (record v { faults = later_faults v.faults }))
                >>= λ r. found account_not_found r >>= λ acc.
                    raise_if (not (acc.user_id == uid)) account_not_found >>= λ _. pure acc)
              w)).0
          ≡ told f
    by_fault fine (inl missing) = rw missing refl
    by_fault fine (inr (acc, (there, other))) = rw there (rw other refl)
    by_fault failed k = refl
    by_fault unacknowledged k = refl

-- A user who asks for the balance of an account that they do not own gets one and the same
-- answer whether the account is another user's or missing, for equal faults.
pub get_current_hidden :
    (env : Env) (uid id : ℕ) (w v : World)
    → NotOwned uid id w.db
    → NotOwned uid id v.db
    → w.faults ≡ v.faults
    → (get_current env (some uid) (some id) w).0 ≡ (get_current env (some uid) (some id) v).0
unfolding get_current
get_current_hidden env uid id w v h k same = elim (Bool-cases (uid == 0)) [
  | inl nobody ↦ rw nobody refl
  | inr user ↦ rw user (elim (Bool-cases (id == 0)) [
    | inl bad ↦ rw bad refl
    | inr good ↦ rw good (
        balance_of_owned-told env uid id w h ∙ rw same (sym (balance_of_owned-told env uid id v k)))
  ])
]
