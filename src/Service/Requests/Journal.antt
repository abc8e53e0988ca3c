-- ===== src/Service/Requests/Journal.antt =====
-- A ledger as clients see it: a journal, in which each request books its own legs.
use ledger_x.Service.Types.{TransferInput, ReverseInput, CreateInput, Leg}
use ledger_x.Prelude.{◌≡◌, ◌∷◌, ◌==◌, ◌++◌, ℕ, map, if◌then◌else◌, false, [], List}
use ledger_x.Service.Requests.{transfer_request, reverse_request, create_request, Request}
use ledger_x.Prelude.Int.{◌-ℤ◌, pos, leb_ℤ, eq_ℤ}
use ledger_x.Service.Transactions.Validated.{exact_sum}
use ledger_x.Service.Transactions.Effects.{legs_on}
use ledger_x.Int64.{neg64}

-- A leg of the transaction with this id.
pub record Entry : Type 0 where
  pub transaction : ℕ
  pub leg : Leg

abbrev pub Journal : Type 0
Journal = List Entry

abbrev pub booked : ℕ → Leg → Entry
booked t l = record { transaction = t; leg = l }

abbrev pub legs_of : ℕ → Journal → List Leg
legs_of t [] = []
legs_of t (e ∷ es) = if e.transaction == t then e.leg ∷ legs_of t es else legs_of t es

-- The amount negated as an int64.
abbrev pub negated_leg : Leg → Leg
negated_leg l = record { account_id = l.account_id; amount_minor = neg64 l.amount_minor }

-- The legs that a request may book: a creation its amount on its account, with the opposite on one
-- other; a transfer between two accounts its positive amount from the one to the other; a reversal
-- on each account the negated legs of its transaction.
pub data Books (s : Journal) (legs : List Leg) : Request → Type 0 where
  creation :
      {input : CreateInput} (ext : ℕ)
      → eq_ℤ input.amount_minor (pos 0) ≡ false
      → legs
        ≡ record { account_id = input.account_id; amount_minor = input.amount_minor }
          ∷ record { account_id = ext; amount_minor = pos 0 -ℤ input.amount_minor }
          ∷ []
      → Books s legs (create_request input)
  transferral :
      {input : TransferInput}
      → leb_ℤ input.amount_minor (pos 0) ≡ false
      → (input.from_account_id == input.to_account_id) ≡ false
      → legs
        ≡ record { account_id = input.from_account_id; amount_minor = pos 0 -ℤ input.amount_minor }
          ∷ record { account_id = input.to_account_id; amount_minor = input.amount_minor }
          ∷ []
      → Books s legs (transfer_request input)
  reversal :
      {input : ReverseInput}
      → ((a : ℕ) → legs_on a legs ≡ legs_on a (map negated_leg (legs_of input.transaction_id s)))
      → Books s legs (reverse_request input)

-- A request leaves the journal, or appends its legs under one id; they sum to zero.
pub data Step (s t : Journal) (r : Request) : Type 0 where
  rests : t ≡ s → Step s t r
  appends :
      (id : ℕ) (legs : List Leg)
      → Books s legs r
      → exact_sum legs ≡ pos 0
      → t ≡ s ++ map (booked id) legs
      → Step s t r

-- One step for each request, in order.
pub data Run : List Request → Journal → Journal → Type 0 where
  no_more : {s : Journal} → Run [] s s
  and_then :
      {r : Request} {rs : List Request} {s t u : Journal}
      → Step s t r
      → Run rs t u
      → Run (r ∷ rs) s u
