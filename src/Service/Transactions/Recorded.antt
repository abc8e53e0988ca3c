-- ===== src/Service/Transactions/Recorded.antt =====
-- The whole of what createBalanced commits: one header, a posting for each leg, one event, and the
-- stored response.
use ledger_x.Repo.Outcome.{bind-Yields, Yields-ok, Yields}
use ledger_x.Prelude.{
  ◌∙◌, sym, ◌≡◌, ◌∷◌, ◌++◌, ℕ, true, str_eq, some, refl, none, map, if◌then◌else◌, false, ap, [],
  String, List, All,
}
use ledger_x.Service.Types.{TransactionDto, PostingDto, Leg, Env, BalancedInput}
use ledger_x.Repo.Models.{Account, Transaction, Posting, Outbox, Database}
use ledger_x.Service.Transactions.Written.{
  write_postings-Yields, remember-Yields, publish-Yields, leg_of, Remembered, PostingsWritten,
  HasNonzeroAmount, EventWritten,
}
use ledger_x.Repo.Rows.{marked, create_transaction_header-Yields, HeaderAdded}
use ledger_x.Repo.Transactions.{HeaderParams}
use ledger_x.Service.Transactions.Permitted.{
  resolve_legs-Yields, check_legs-Yields, Permitted, LegsResolved,
}
use ledger_x.Repo.World.{World}
use ledger_x.Service.Transactions.Create.{text_or_null, record_transaction, created_dto}
use ledger_x.Int64.{neg64}
use ledger_x.Prelude.Int.{pos}
use ledger_x.Service.Transactions.Claim.{posting_dto}
use ledger_x.Service.Transactions.Legs.{sum_from}

-- `d'` is `d` with the transaction of `input` added.
pub record Recorded (env : Env) (hash : String) (input : BalancedInput) (d d' : Database)
    (dto : TransactionDto) : Type 0 where
  pub header : Transaction
  pub rows : List Posting
  pub event : Outbox
  pub json : String
  pub legs : List Leg
  pub extra : List Account
  pub accounts_added : d'.accounts ≡ d.accounts ++ extra
  pub users_same : d'.users ≡ d.users
  pub snapshots_same : d'.balance_snapshots ≡ d.balance_snapshots
  pub exports_same : d'.exports ≡ d.exports
  pub header_added : d'.transactions ≡ d.transactions ++ header ∷ []
  pub header_user : header.user_id ≡ input.user_id
  pub header_currency : header.currency ≡ input.currency
  pub not_reversal : header.reversal_of ≡ none
  pub rows_added : d'.postings ≡ d.postings ++ rows
  pub rows_own : All (λ p. p.transaction_id ≡ header.id) rows
  pub rows_nonzero : All HasNonzeroAmount rows
  pub rows_legs : map leg_of rows ≡ legs
  pub given : input.use_external_leg ≡ false → legs ≡ input.legs
  pub offset :
      input.use_external_leg ≡ true
      → (ext : ℕ) × (legs
          ≡ input.legs
            ++ record { account_id = ext; amount_minor = neg64 (sum_from (pos 0) input.legs) } ∷ [])
  pub permitted : All (Permitted d' input.user_id input.currency) legs
  pub event_added : d'.outbox ≡ d.outbox ++ event ∷ []
  pub event_type : event.event_type ≡ "TransactionCreated"
  pub event_waits : event.processed_at ≡ none
  pub encoded : str_eq input.idempotency_key "" ≡ false → env.marshal_dto dto ≡ some json
  pub keys : d'.idempotency_keys ≡ (
      if str_eq input.idempotency_key ""
      then d.idempotency_keys
      else marked input.user_id input.idempotency_key hash json d.idempotency_keys)
  pub dto_id : dto.id ≡ header.id
  pub dto_postings : dto.postings ≡ map posting_dto rows

-- A header, postings, an event and a key change no account.
pub Permitted-later :
    (d d' : Database) (uid : ℕ) (currency : String) (legs : List Leg)
    → d'.accounts ≡ d.accounts
    → All (Permitted d uid currency) legs
    → All (Permitted d' uid currency) legs
Permitted-later d d' uid currency [] e h = tt
Permitted-later d d' uid currency (l ∷ legs) e (p, rest) = (
  record {
    account = p.account;
    known = rw e p.known;
    owned = p.owned;
    active = p.active;
    same_currency = p.same_currency;
  },
  Permitted-later d d' uid currency legs e rest,
)

abbrev pub header_params : Env → BalancedInput → HeaderParams
header_params env input = record {
  user_id = input.user_id;
  currency = input.currency;
  category_id = none;
  occurred_at = env.store_time input.occurred_at.instant;
  note = text_or_null input.note;
  reversal_of = none;
}

assemble :
    (env : Env) (hash : String) (input : BalancedInput) (d : Database) (legs : List Leg)
    (h : Transaction) (dtos : List PostingDto) (w1 w2 w3 w4 w5 w6 : World)
    → LegsResolved input d legs w1
    → All (Permitted w1.db input.user_id input.currency) legs × (w2.db ≡ w1.db)
    → HeaderAdded (header_params env input) w2.db w2.now h w3
    → PostingsWritten h.id legs w3.db dtos w4
    → EventWritten "TransactionCreated" w4.db w5
    → Remembered env input.user_id input.idempotency_key hash
        (created_dto env input h dtos)
        w5.db
        w6
    → Recorded env hash input d w6.db (created_dto env input h dtos)
assemble env hash input d legs h dtos w1 w2 w3 w4 w5 w6 r (p, same) a b c m =
    let chain : w6.db ≡ record d {
      accounts = d.accounts ++ r.grown.extra;
      transactions = d.transactions ++ h ∷ [];
      postings = d.postings ++ b.rows;
      outbox = d.outbox ++ c.event ∷ [];
      idempotency_keys =
          if str_eq input.idempotency_key ""
          then d.idempotency_keys
          else marked input.user_id input.idempotency_key hash m.json d.idempotency_keys;
    } =
      rw (m.stored, c.added, b.added, a.added, same, r.grown.same) refl in
    record {
      header = h;
      rows = b.rows;
      event = c.event;
      json = m.json;
      legs = legs;
      extra = r.grown.extra;
      accounts_added = ap (λ x. x.accounts) chain;
      users_same = ap (λ x. x.users) chain;
      snapshots_same = ap (λ x. x.balance_snapshots) chain;
      exports_same = ap (λ x. x.exports) chain;
      header_added = ap (λ x. x.transactions) chain;
      header_user = a.user_id;
      header_currency = a.currency;
      not_reversal = a.reversal_of;
      rows_added = ap (λ x. x.postings) chain;
      rows_own = b.own;
      rows_nonzero = b.nonzero;
      rows_legs = b.legs_of;
      given = r.as_given;
      offset = r.offset;
      permitted =
          Permitted-later w1.db w6.db _ _ legs
            (ap (λ x. x.accounts) chain ∙ sym (ap (λ x. x.accounts) r.grown.same)) p;
      event_added = ap (λ x. x.outbox) chain;
      event_type = c.type_eq;
      event_waits = c.waits;
      encoded = m.encoded;
      keys = ap (λ x. x.idempotency_keys) chain;
      dto_id = refl;
      dto_postings = b.answered;
    }

pub record_transaction-Yields :
    (env : Env) (hash : String) (input : BalancedInput) (w : World)
    → Yields
        (λ r w'. (h : Recorded env hash input w.db w'.db r.0) × (h.legs ≡ r.1))
        (record_transaction env hash input w)
unfolding record_transaction assemble
record_transaction-Yields env hash input w =
    bind-Yields _ _ _ w (resolve_legs-Yields input w) λ legs w1 r.
      bind-Yields _ _ _ w1 (check_legs-Yields input.user_id input.currency legs w1) λ _ w2 p.
        bind-Yields _ _ _ w2 (create_transaction_header-Yields (header_params env input) w2)
          λ h w3 a. bind-Yields _ _ _ w3 (write_postings-Yields h.id legs w3) λ dtos w4 b.
            bind-Yields _ _ _ w4 (publish-Yields env _ _ w4) λ _ w5 c.
              bind-Yields _ _ _ w5 (remember-Yields env _ _ hash _ w5) λ _ w6 m.
                Yields-ok _ w6
                  (assemble env hash input w.db legs h dtos w1 w2 w3 w4 w5 w6 r p a b c m, refl)
