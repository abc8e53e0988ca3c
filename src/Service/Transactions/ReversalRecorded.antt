-- ===== src/Service/Transactions/ReversalRecorded.antt =====
-- What Reverse writes between the claim and the commit.
use ledger_x.Repo.Outcome.{
  raise_if-Yields, found-Yields, bind-Yields, attempt-Yields, Yields-ok, Yields-err, Ends-Yields,
  Yields,
}
use ledger_x.Prelude.{
  ◌≡◌, ◌∷◌, ◌∙◌, ◌++◌, str_eq, some, refl, none, map, if◌then◌else◌, false, ap, [], String, Option,
  List, All,
}
use ledger_x.Repo.World.{ok, err, World, Result, CacheEntry}
use ledger_x.Repo.Models.{Transaction, Posting, Outbox, Database}
use ledger_x.Service.Types.{TransactionDto, ReverseInput, PostingDto, Env}
use ledger_x.Service.Transactions.Written.{
  write_postings-Yields, remember-Yields, publish-Yields, leg_of, Remembered, PostingsWritten,
  HasNonzeroAmount, EventWritten,
}
use ledger_x.Repo.Rows.{
  marked, list_postings_by_transaction-Yields, get_transaction_for_user-Ends,
  create_transaction_header-Yields, RowRead, HeaderAdded,
}
use ledger_x.Repo.Transactions.{reversal_taken, postings_of, find_owned_transaction, HeaderParams}
use ledger_x.Repo.Inside.{
  list_postings_by_transaction-Inside, get_transaction_for_user-Inside,
  create_transaction_header-Inside, Inside,
}
use ledger_x.Repo.Keeps.{
  Keeps-raise_if, Keeps-raise, Keeps-pure, Keeps-found, Keeps-bind, Keeps-attempt, Keeps,
}
use ledger_x.Service.Transactions.Claim.{posting_dto}
use ledger_x.Service.Transactions.Frame.{write_postings-Inside, remember-Inside, publish-Inside}
use ledger_x.Service.Transactions.Reverse.{
  reversal_dto, record_reversal, or_already_reversed, negated, is_some, is_empty,
}

-- `d'` is `d` with the reversal of one of the user's transactions added.
pub record ReversalRecorded (env : Env) (hash : String) (input : ReverseInput) (d d' : Database)
    (dto : TransactionDto) : Type 0 where
  pub original : Transaction
  pub header : Transaction
  pub rows : List Posting
  pub event : Outbox
  pub json : String
  pub original_found : find_owned_transaction input.transaction_id input.user_id d ≡ some original
  pub original_plain : original.reversal_of ≡ none
  pub posted : is_empty (postings_of original.id d.postings) ≡ false
  pub first_reversal : reversal_taken (some original.id) d.transactions ≡ false
  pub users_same : d'.users ≡ d.users
  pub accounts_same : d'.accounts ≡ d.accounts
  pub snapshots_same : d'.balance_snapshots ≡ d.balance_snapshots
  pub exports_same : d'.exports ≡ d.exports
  pub header_added : d'.transactions ≡ d.transactions ++ header ∷ []
  pub header_user : header.user_id ≡ input.user_id
  pub header_currency : header.currency ≡ original.currency
  pub header_reverses : header.reversal_of ≡ some original.id
  pub rows_added : d'.postings ≡ d.postings ++ rows
  pub rows_own : All (λ p. p.transaction_id ≡ header.id) rows
  pub rows_nonzero : All HasNonzeroAmount rows
  pub rows_negate : map leg_of rows ≡ map negated (postings_of original.id d.postings)
  pub event_added : d'.outbox ≡ d.outbox ++ event ∷ []
  pub event_type : event.event_type ≡ "TransactionReversed"
  pub event_waits : event.processed_at ≡ none
  pub encoded : str_eq input.idempotency_key "" ≡ false → env.marshal_dto dto ≡ some json
  pub keys : d'.idempotency_keys ≡ (
      if str_eq input.idempotency_key ""
      then d.idempotency_keys
      else marked input.user_id input.idempotency_key hash json d.idempotency_keys)
  pub dto_id : dto.id ≡ header.id
  pub dto_reverses : dto.reversal_of ≡ original.id
  pub dto_postings : dto.postings ≡ map posting_dto rows

abbrev pub reversal_params : Env → ReverseInput → Transaction → HeaderParams
reversal_params env input orig = record {
  user_id = input.user_id;
  currency = orig.currency;
  category_id = none;
  occurred_at = env.store_time env.go_now;
  note = some (env.reversal_note orig.id);
  reversal_of = some orig.id;
}

or_already_reversed-Yields :
    {A : Type 0} {Q : A → World → Type 0} (r : Result A) (w : World)
    → Yields Q (r, w)
    → Yields Q (or_already_reversed r w)
or_already_reversed-Yields (ok a) w h = h
or_already_reversed-Yields (err e) w h = Yields-err _ w

not_some : {A : Type 0} (o : Option A) → is_some o ≡ false → o ≡ none
not_some none h = refl
not_some (some a) h = cc

module _ (env : Env) (hash : String) (input : ReverseInput) where
  assemble :
      (d : Database) (orig h : Transaction) (ps : List Posting) (dtos : List PostingDto)
      (w1 w2 w3 w4 w5 w6 w7 : World)
      → RowRead (find_owned_transaction input.transaction_id input.user_id d) d orig w1
      → (is_some orig.reversal_of ≡ false) × (w2 ≡ w1)
      → (ps ≡ postings_of orig.id w2.db.postings) × (w3.db ≡ w2.db)
      → (is_empty ps ≡ false) × (w4 ≡ w3)
      → HeaderAdded (reversal_params env input orig) w4.db w4.now h w5
      → PostingsWritten h.id (map negated ps) w5.db dtos w6
      → (w8 : World) → EventWritten "TransactionReversed" w6.db w7
      → Remembered env input.user_id input.idempotency_key hash
          (reversal_dto env orig h dtos)
          w7.db
          w8
      → ReversalRecorded env hash input d w8.db (reversal_dto env orig h dtos)
  assemble d orig h ps dtos w1 w2 w3 w4 w5 w6 w7 r (plain, s2) (listed, s3) (nonempty, s4) a b w8 c
        m =
      let at4 : w4.db ≡ d = rw (s4, s3, s2) r.same in
      let ps_is : ps ≡ postings_of orig.id d.postings = rw (listed, s2, r.same) refl in
      let chain : w8.db ≡ record d {
        transactions = d.transactions ++ h ∷ [];
        postings = d.postings ++ b.rows;
        outbox = d.outbox ++ c.event ∷ [];
        idempotency_keys =
            if str_eq input.idempotency_key ""
            then d.idempotency_keys
            else marked input.user_id input.idempotency_key hash m.json d.idempotency_keys;
      } =
        rw (m.stored, c.added, b.added, a.added, at4) refl in
      record {
        original = orig;
        header = h;
        rows = b.rows;
        event = c.event;
        json = m.json;
        original_found = r.read;
        original_plain = not_some orig.reversal_of plain;
        posted = rw (← ps_is) nonempty;
        first_reversal = rw (← at4) a.first_reversal;
        users_same = ap (λ x. x.users) chain;
        accounts_same = ap (λ x. x.accounts) chain;
        snapshots_same = ap (λ x. x.balance_snapshots) chain;
        exports_same = ap (λ x. x.exports) chain;
        header_added = ap (λ x. x.transactions) chain;
        header_user = a.user_id;
        header_currency = a.currency;
        header_reverses = a.reversal_of;
        rows_added = ap (λ x. x.postings) chain;
        rows_own = b.own;
        rows_nonzero = b.nonzero;
        rows_negate = b.legs_of ∙ ap (map negated) ps_is;
        event_added = ap (λ x. x.outbox) chain;
        event_type = c.type_eq;
        event_waits = c.waits;
        encoded = m.encoded;
        keys = ap (λ x. x.idempotency_keys) chain;
        dto_id = refl;
        dto_reverses = refl;
        dto_postings = b.answered;
      }

  pub record_reversal-Yields :
      (w : World)
      → Yields
          (λ r w'. ReversalRecorded env hash input w.db w'.db r.dto)
          (record_reversal env hash input w)
  unfolding record_reversal
  record_reversal-Yields w =
      bind-Yields _ _ _ w
        (attempt-Yields _ w
          (Ends-Yields _ (get_transaction_for_user-Ends input.transaction_id input.user_id w)))
        λ r w0 read.
          bind-Yields
            (RowRead (find_owned_transaction input.transaction_id input.user_id w.db) w.db) _ _ w0
            (found-Yields _ r w0 read)
            λ orig w1 got. bind-Yields _ _ _ w1 (raise_if-Yields _ _ w1) λ _ w2 plain.
              bind-Yields _ _ _ w2 (list_postings_by_transaction-Yields orig.id w2) λ ps w3 listed.
                bind-Yields _ _ _ w3 (raise_if-Yields _ _ w3) λ _ w4 nonempty.
                  bind-Yields _ _ _ w4
                    (attempt-Yields _ w4
                      (create_transaction_header-Yields (reversal_params env input orig) w4))
                    λ h w5 tried.
                      bind-Yields (HeaderAdded (reversal_params env input orig) w4.db w4.now) _ _ w5
                        (or_already_reversed-Yields h w5 tried)
                        λ header w6 a.
                          bind-Yields _ _ _ w6 (write_postings-Yields header.id (map negated ps) w6)
                            λ dtos w7 b. bind-Yields _ _ _ w7 (publish-Yields env _ _ w7) λ _ w8 c.
                              bind-Yields _ _ _ w8 (remember-Yields env _ _ hash _ w8) λ _ w9 m.
                                Yields-ok _ w9 (
                                  assemble w.db orig header ps dtos w1 w2 w3 w4 w6 w7 w8 got plain
                                    listed nonempty a b w9 c m)

module _ (d : Database) (c : List CacheEntry) where
  or_already_reversed-Inside :
      {A : Type 0} (r : Result A) → Keeps (Inside d c) (or_already_reversed r)
  or_already_reversed-Inside (ok a) = Keeps-pure a
  or_already_reversed-Inside (err e) = Keeps-raise _

  pub record_reversal-Inside :
      (env : Env) (hash : String) (input : ReverseInput)
      → Keeps (Inside d c) (record_reversal env hash input)
  unfolding record_reversal
  record_reversal-Inside env hash input =
      Keeps-bind _ _ (Keeps-attempt _ (get_transaction_for_user-Inside d c _ _)) λ r.
        Keeps-bind _ _ (Keeps-found _ r) λ orig. Keeps-bind _ _ (Keeps-raise_if _ _) λ _.
          Keeps-bind _ _ (list_postings_by_transaction-Inside d c orig.id) λ ps.
            Keeps-bind _ _ (Keeps-raise_if _ _) λ _.
              Keeps-bind _ _ (Keeps-attempt _ (create_transaction_header-Inside d c _)) λ h.
                Keeps-bind _ _ (or_already_reversed-Inside h) λ header.
                  Keeps-bind _ _ (write_postings-Inside d c header.id (map negated ps)) λ postings.
                    Keeps-bind _ _ (publish-Inside d c env _ _) λ _.
                      Keeps-bind _ _
                        (remember-Inside d c env input.user_id input.idempotency_key hash _)
                        λ _. Keeps-pure _
