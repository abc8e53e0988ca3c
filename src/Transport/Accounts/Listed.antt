-- ===== src/Transport/Accounts/Listed.antt =====
-- Whose accounts are listed, and how many.
use ledger_x.Repo.Outcome.{if-Yields, call-Yields, Yields-ok, Yields-err, Yields}
use ledger_x.Prelude.{
  ◌^◌, ◌%◌, some, ltb, inr, inl, Bool-cases, ◌≤◌, ◌≡◌, ◌∷◌, ◌||◌, ◌==◌, ℕ, zero, true, take, suc,
  refl, map, length, drop, arith, ap, [], List, All, ==_iff,
}
use ledger_x.Repo.Models.{Database, Account}
use ledger_x.Transport.Accounts.{list_accounts, account_list, as_int32, account_dto, AccountDto}
use ledger_x.Transport.Handlers.{replied, rejected, Response}
use ledger_x.Repo.World.{ok, err, Result, bad_input, World}
use ledger_x.Repo.Accounts.{list_accounts_by_user, accounts_page}
use ledger_x.Prelude.Int.{◌+ℤ◌, ◌-ℤ◌, ℤ, pos_part, pos, ltb_ℤ}
use ledger_x.Prelude.Kept.{where_rows_pass, order_by-All}
use ledger_x.Prelude.Select.{where_rows, order_by}
use ledger_x.Service.Samples.{user}

abbrev IsOwnAccount : ℕ → Account → Type 0
IsOwnAccount uid a = (a.user_id == uid) ≡ true

take-All : (P : Account → Type 0) (n : ℕ) (xs : List Account) → All P xs → All P (take n xs)
take-All P zero xs h = tt
take-All P (suc n) [] h = tt
take-All P (suc n) (x ∷ xs) h = (h.0, take-All P n xs h.1)

drop-All : (P : Account → Type 0) (n : ℕ) (xs : List Account) → All P xs → All P (drop n xs)
drop-All P zero xs h = h
drop-All P (suc n) [] h = tt
drop-All P (suc n) (x ∷ xs) h = drop-All P n xs h.1

length-take : (n : ℕ) (xs : List Account) → length (take n xs) ≤ n
length-take zero xs = omega arith
length-take (suc n) [] = omega arith
length-take (suc n) (x ∷ xs) = let rest = length-take n xs in omega (arith, rest)

length-map : (xs : List Account) → length (map account_dto xs) ≡ length xs
length-map [] = refl
length-map (x ∷ xs) = ap suc (length-map xs)

own_dtos :
    (uid : ℕ) (xs : List Account)
    → All (IsOwnAccount uid) xs
    → All (λ (d : AccountDto). d.user_id ≡ uid) (map account_dto xs)
own_dtos uid [] h = tt
own_dtos uid (x ∷ xs) h = ((==_iff x.user_id uid).0 h.0, own_dtos uid xs h.1)

accounts_page-IsOwnAccount :
    (uid : ℕ) (limit offset : ℤ) (d : Database)
    → All (IsOwnAccount uid) (accounts_page uid limit offset d)
accounts_page-IsOwnAccount uid limit offset d = take-All (IsOwnAccount uid) (pos_part limit) _ (
    drop-All (IsOwnAccount uid) (pos_part offset) _
      (order_by-All (IsOwnAccount uid) _ _ (where_rows_pass _ d.accounts)))

-- The accounts of a reply are the user's, and no more than were asked for.
abbrev pub IsOwnPage : ℕ → ℕ → List AccountDto → Type 0
IsOwnPage uid limit ds = All (λ (d : AccountDto). d.user_id ≡ uid) ds × (length ds ≤ limit)

abbrev Replies : ℕ → ℕ → Response (List AccountDto) → Type 0
Replies uid limit (replied status ds) = (status ≡ 200) × IsOwnPage uid limit ds
Replies uid limit (rejected status) = Unit

below_difference : (b n : ℕ) → b ≤ n → pos_part (pos b -ℤ pos (2 ^ 32)) ≤ n
unfolding ◌-ℤ◌ ◌+ℤ◌
below_difference b n h = grind (arith, h)

int32_small : (n : ℕ) → pos_part (as_int32 n) ≤ n
int32_small n =
    let small : n % 2 ^ 32 ≤ n = omega arith in
    elim (Bool-cases (ltb (n % 2 ^ 32) (2 ^ 31))) [
      | inl low ↦ rw low small
      | inr high ↦ rw high (below_difference (n % 2 ^ 32) n small)
    ]

page_length :
    (uid limit : ℕ) (offset : ℤ) (d : Database)
    → length (accounts_page uid (as_int32 limit) offset d) ≤ limit
page_length uid limit offset d =
    let taken = length-take (pos_part (as_int32 limit)) (
      drop (pos_part offset) (
        order_by (λ (a : Account) (b : Account). ltb b.created_at a.created_at)
          (where_rows (λ (a : Account). a.user_id == uid) d.accounts))) in
    let small = int32_small limit in omega (arith, taken, small)

listed_rows :
    (uid limit offset : ℕ) (w : World)
    → Yields
        (λ rows _. All (IsOwnAccount uid) rows × (length rows ≤ limit))
        (list_accounts_by_user uid (as_int32 limit) (as_int32 offset) w)
unfolding list_accounts_by_user
listed_rows uid limit offset w = call-Yields _ w (
    if-Yields (ltb_ℤ (as_int32 limit) (pos 0) || ltb_ℤ (as_int32 offset) (pos 0)) _ _
      (λ h. Yields-err bad_input _)
      (λ h. Yields-ok _ _ (
        accounts_page-IsOwnAccount uid (as_int32 limit) (as_int32 offset) w.db,
        page_length uid limit (as_int32 offset) w.db,
      )))

listed_reply :
    (uid limit : ℕ) (r : Result (List Account) × World)
    → Yields (λ rows _. All (IsOwnAccount uid) rows × (length rows ≤ limit)) r
    → Replies uid limit (account_list r).0
listed_reply uid limit (ok rows, w) h =
    (refl, (own_dtos uid rows h.at.0, rw (length-map rows) h.at.1))
listed_reply uid limit (err e, w) h = tt

list_accounts-Replies :
    (uid limit offset : ℕ) (w : World)
    → Replies uid limit (list_accounts (some uid) limit offset w).0
unfolding list_accounts
list_accounts-Replies uid limit offset w = elim (Bool-cases (uid == 0)) [
  | inl nobody ↦ rw nobody tt
  | inr user ↦ rw user (listed_reply uid limit _ (listed_rows uid limit offset w))
]

-- Under any faults, a list of accounts that List replies to a user has status 200, holds
-- accounts of that user only, and no more than the limit that was asked for.
pub list_accounts_own :
    (uid limit offset status : ℕ) (w : World) (ds : List AccountDto)
    → (list_accounts (some uid) limit offset w).0 ≡ replied status ds
    → (status ≡ 200) × IsOwnPage uid limit ds
list_accounts_own uid limit offset status w ds h =
    rw h at (list_accounts-Replies uid limit offset w)
