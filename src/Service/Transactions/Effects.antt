-- ===== src/Service/Transactions/Effects.antt =====
-- Create and Transfer when nothing fails.
use ledger_x.Prelude.Int.{
  ◌-ℤ◌, ◌+ℤ◌, ℤ, pos_part, pos, negsuc, neg_part, leb_ℤ, int_laws, eq_ℤ_iff, eq_ℤ, +ℤ-zero,
}
use ledger_x.Service.Transactions.Accepted.{with_offset, as_given, EncodesAt, IsFresh, Acceptable}
use ledger_x.Repo.Models.{Posting, Database, Account}
use ledger_x.Service.Types.{TransferInput, TransactionDto, Leg, Env, CreateInput, BalancedInput}
use ledger_x.Prelude.{
  some, ◌≢◌, ◌≡◌, ◌∷◌, ◌∙◌, ◌==◌, ◌&&◌, ℕ, true, sym, refl, none, map, inr, inl, if◌then◌else◌,
  false, arith, ap, [], String, List, Bool-cases, Bool,
}
use ledger_x.Int64.{wrap64_id, wrap64, neg64_lem, neg64, min_int64, InRange}
use ledger_x.Repo.Atomic.{IsReady}
use ledger_x.Service.Transactions.Permitted.{Permitted}
use ledger_x.Repo.World.{ok, World}
use ledger_x.Service.Samples.{account, user}
use ledger_x.Service.Transactions.Ownership.{account_sum}
use ledger_x.Repo.Success.{answer_of}
use ledger_x.Service.Transactions.Create.{
  create_legs, create, transfer_legs, transfer, create_balanced,
}
use ledger_x.Service.Transactions.Succeeded.{create_balanced-Succeeds}
use ledger_x.Service.Transactions.Written.{leg_of}
use ledger_x.Prelude.Select.{sum_where-append}
use ledger_x.Repo.Accounts.{find_external, user_exists}
use ledger_x.Service.Transactions.Legs.{sum_from, validate_legs}
use ledger_x.Service.Transactions.Validated.{sum_from_exact, validate_legs_iff}

-- What some legs put on an account.
abbrev pub legs_on : ℕ → List Leg → ℤ
legs_on a [] = pos 0
legs_on a (l ∷ legs) =
    if l.account_id == a then l.amount_minor +ℤ legs_on a legs else legs_on a legs

pub account_sum-legs :
    (a : ℕ) (rows : List Posting) → account_sum a rows ≡ legs_on a (map leg_of rows)
account_sum-legs a [] = refl
account_sum-legs a (p ∷ rows) = rw (account_sum-legs a rows) refl

-- An accepted request is answered, and each account changes by what the legs put on it.
create_balanced-moves :
    (env : Env) (input : BalancedInput) (legs : List Leg) (w : World) (a : ℕ)
    → EncodesAt env input.occurred_at.instant w.now
    → w.faults ≡ []
    → IsReady w
    → Acceptable input w.db legs
    → let r = create_balanced env input w in
      (dto : TransactionDto) × ((r.0 ≡ ok dto)
        × (account_sum a r.1.db.postings ≡ account_sum a w.db.postings +ℤ legs_on a legs))
create_balanced-moves env input legs w a m h ready accept =
    let (dto, (answered, (created, (legs_are, _)))) =
      answer_of _ (create_balanced-Succeeds env input legs w.now m w h refl ready accept) in
    let r = created.recorded in
    let before : created.between.postings ≡ w.db.postings =
      ap (λ x. x.postings) created.claimed.claimed in
    let on_rows : account_sum a r.rows ≡ legs_on a legs =
      rw (account_sum-legs, r.rows_legs, legs_are) refl in
    (dto, (answered, rw (r.rows_added, before, sum_where-append, on_rows) refl))

-- The account may be posted to by the user in the currency.
abbrev pub IsUsable : Database → ℕ → String → ℕ → Type 0
IsUsable d uid currency id =
    Permitted d uid currency (record { account_id = id; amount_minor = pos 0 })

usable :
    (d : Database) (uid : ℕ) (currency : String) (l : Leg)
    → IsUsable d uid currency l.account_id
    → Permitted d uid currency l
usable d uid currency l h = record {
  account = h.account;
  known = h.known;
  owned = h.owned;
  active = h.active;
  same_currency = h.same_currency;
}

-- An amount and its negative, in 64 bits.
abbrev pub IsMovable : ℤ → Type 0
IsMovable x = InRange x × ((x ≢ min_int64) × (eq_ℤ x (pos 0) ≡ false))

pub neg64_nonzero : (x : ℤ) → IsMovable x → eq_ℤ (neg64 x) (pos 0) ≡ false
neg64_nonzero x (range, (not_min, nonzero)) = elim (Bool-cases (eq_ℤ (neg64 x) (pos 0))) [
  | inr other ↦ other
  | inl zero_neg ↦
      let e : pos 0 -ℤ x ≡ pos 0 =
        sym (neg64_lem x range not_min) ∙ (eq_ℤ_iff (neg64 x) (pos 0)).0 zero_neg in
      let up : pos_part (pos 0 -ℤ x) ≡ 0 = ap pos_part e in
      let down : neg_part (pos 0 -ℤ x) ≡ 0 = ap neg_part e in
      let zero_x : x ≡ pos 0 = omega int_laws in
      let same : eq_ℤ x (pos 0) ≡ true = rw zero_x refl in cc
]

cancels : (x : ℤ) → InRange x → x ≢ min_int64 → neg64 x +ℤ (x +ℤ pos 0) ≡ pos 0
cancels x h n = rw (neg64_lem x h n) (omega int_laws)

cancels_back : (x : ℤ) → InRange x → x ≢ min_int64 → x +ℤ (neg64 x +ℤ pos 0) ≡ pos 0
cancels_back x h n = rw (neg64_lem x h n) (omega int_laws)

positive-IsMovable : (x : ℤ) → InRange x → leb_ℤ x (pos 0) ≡ false → IsMovable x
positive-IsMovable (pos n) h k =
    (h, (λ e. let p : n ≡ 0 = ap pos_part e in ground arith, ground arith))
positive-IsMovable (negsuc n) h k = absurd (ground arith)

transfer_valid :
    (input : TransferInput)
    → IsMovable input.amount_minor
    → validate_legs (transfer_legs input).legs false ≡ none
transfer_valid input m = (validate_legs_iff (transfer_legs input).legs false).1 (
  (neg64_nonzero input.amount_minor m, (m.1.1, tt)),
  inr (rw (cancels input.amount_minor m.0 m.1.0) wrap_zero),
)
  where
    wrap_zero : wrap64 (pos 0) ≡ pos 0
    wrap_zero = wrap64_id (pos 0) (ground arith, ground arith)

transfer-Acceptable :
    (input : TransferInput) (d : Database)
    → user_exists d input.user_id ≡ true
    → IsUsable d input.user_id input.currency input.from_account_id
    → IsUsable d input.user_id input.currency input.to_account_id
    → IsMovable input.amount_minor
    → IsFresh input.user_id input.idempotency_key d
    → Acceptable (transfer_legs input) d (transfer_legs input).legs
transfer-Acceptable input d user from to m fresh = record {
  valid = transfer_valid input m;
  resolved = as_given refl refl;
  permitted = (usable d _ _ _ from, (usable d _ _ _ to, tt));
  nonzero = (neg64_nonzero input.amount_minor m, (m.1.1, tt));
  balanced = cancels input.amount_minor m.0 m.1.0;
  user = user;
  fresh = fresh;
}

-- What a transfer does to an account.
abbrev pub transferred : TransferInput → ℕ → ℤ
transferred input a =
    if input.from_account_id == a
    then pos 0 -ℤ input.amount_minor
    else if input.to_account_id == a
    then input.amount_minor
    else pos 0

legs_on-transfer :
    (input : TransferInput) (a : ℕ)
    → IsMovable input.amount_minor
    → (input.from_account_id == input.to_account_id) ≡ false
    → legs_on a (transfer_legs input).legs ≡ transferred input a
legs_on-transfer input a m differ =
    rw (neg64_lem input.amount_minor m.0 m.1.0)
      (sides (input.from_account_id == a) (input.to_account_id == a) input.amount_minor exclusive)
  where
    exclusive : (input.from_account_id == a) && (input.to_account_id == a) ≡ false
    exclusive = ground arith

    sides :
        (f t : Bool) (x : ℤ)
        → f && t ≡ false
        → (if f
            then pos 0 -ℤ x +ℤ (if t then x +ℤ pos 0 else pos 0)
            else (if t then x +ℤ pos 0 else pos 0))
          ≡ (if f then pos 0 -ℤ x else if t then x else pos 0)
    sides true true x h = cc
    sides true false x h = +ℤ-zero _
    sides false true x h = +ℤ-zero x
    sides false false x h = refl

-- Without faults, when no transaction is open, every transaction balances, JSON encodes the
-- responses and events that carry the stored time of the request and now(), the user exists,
-- both accounts are different, the user's, active and of the currency, the amount is a positive
-- int64 and the key is not taken, Transfer answers and moves the amount from the one account to
-- the other and changes no other account.
pub transfer_moves :
    (env : Env) (input : TransferInput) (w : World) (a : ℕ)
    → EncodesAt env input.occurred_at.instant w.now
    → w.faults ≡ []
    → IsReady w
    → user_exists w.db input.user_id ≡ true
    → IsUsable w.db input.user_id input.currency input.from_account_id
    → IsUsable w.db input.user_id input.currency input.to_account_id
    → (input.from_account_id == input.to_account_id) ≡ false
    → InRange input.amount_minor
    → leb_ℤ input.amount_minor (pos 0) ≡ false
    → IsFresh input.user_id input.idempotency_key w.db
    → let r = transfer env input w in
      (dto : TransactionDto) × ((r.0 ≡ ok dto)
        × (account_sum a r.1.db.postings ≡ account_sum a w.db.postings +ℤ transferred input a))
unfolding transfer
transfer_moves env input w a m h ready user from to differ range positive fresh =
    let movable = positive-IsMovable input.amount_minor range positive in
    rw (positive, differ, ← legs_on-transfer input a movable differ)
      (create_balanced-moves env (transfer_legs input) (transfer_legs input).legs w a m h ready
        (transfer-Acceptable input w.db user from to movable fresh))

-- The external account carries what comes in and goes out.
abbrev pub created_legs : CreateInput → Account → List Leg
created_legs input ext =
    record { account_id = input.account_id; amount_minor = input.amount_minor }
    ∷ record { account_id = ext.id; amount_minor = neg64 input.amount_minor }
    ∷ []

sum_of_one :
    (input : CreateInput)
    → InRange input.amount_minor
    → sum_from (pos 0) (create_legs input).legs ≡ input.amount_minor
sum_of_one input h =
    sum_from_exact (create_legs input).legs (rw (+ℤ-zero input.amount_minor) h)
    ∙ +ℤ-zero input.amount_minor

create-Acceptable :
    (input : CreateInput) (d : Database) (ext : Account)
    → user_exists d input.user_id ≡ true
    → find_external input.user_id d ≡ some ext
    → IsUsable d input.user_id input.currency input.account_id
    → IsUsable d input.user_id input.currency ext.id
    → IsMovable input.amount_minor
    → IsFresh input.user_id input.idempotency_key d
    → Acceptable (create_legs input) d (created_legs input ext)
create-Acceptable input d ext user external_known account offset m fresh = record {
  valid = (validate_legs_iff (create_legs input).legs true).1 ((m.1.1, tt), inl refl);
  resolved = with_offset ext refl external_known (rw (sum_of_one input m.0) refl);
  permitted = (usable d _ _ _ account, (usable d _ _ _ offset, tt));
  nonzero = (m.1.1, (neg64_nonzero input.amount_minor m, tt));
  balanced = cancels_back input.amount_minor m.0 m.1.0;
  user = user;
  fresh = fresh;
}

-- Without faults, when no transaction is open, every transaction balances, JSON encodes the
-- responses and events that carry the stored time of the request and now(), the user and the
-- external account exist, both accounts are usable by the user in the currency, the amount is a
-- nonzero int64 other than the least and the key is not taken, Create answers and adds the
-- amount to the account and its negation to the external account.
pub create_moves :
    (env : Env) (input : CreateInput) (w : World) (a : ℕ) (ext : Account)
    → EncodesAt env input.occurred_at.instant w.now
    → w.faults ≡ []
    → IsReady w
    → user_exists w.db input.user_id ≡ true
    → find_external input.user_id w.db ≡ some ext
    → IsUsable w.db input.user_id input.currency input.account_id
    → IsUsable w.db input.user_id input.currency ext.id
    → IsMovable input.amount_minor
    → IsFresh input.user_id input.idempotency_key w.db
    → let r = create env input w in
      (dto : TransactionDto) × ((r.0 ≡ ok dto)
        × (account_sum a r.1.db.postings
            ≡ account_sum a w.db.postings +ℤ legs_on a (created_legs input ext)))
unfolding create
create_moves env input w a ext m h ready user external_known account offset movable fresh =
    rw movable.1.1 (
      create_balanced-moves env (create_legs input) (created_legs input ext) w a m h ready
        (create-Acceptable input w.db ext user external_known account offset movable fresh))
