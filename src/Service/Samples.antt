-- ===== src/Service/Samples.antt =====
-- A small world for the tests and witnesses: user 1 with two accounts, user 2 with one.
use ledger_x.Prelude.{Option, ℕ, ◌/◌, String, true, none, some, [], ◌∷◌}
use ledger_x.Prelude.Int.{ℤ, negsuc, pos}
use ledger_x.Repo.Models.{Transaction, Posting, User, Account, Kind, normal, external, Database}
use ledger_x.Repo.World.{fine, failed, World}
use ledger_x.Service.Types.{Env, GoTime, CreateInput, TransferInput, ReverseInput}

abbrev pub user : ℕ → User
user id = record { id = id; email = "u@x.io"; password_hash = "h"; created_at = 0 }

abbrev pub account : ℕ → ℕ → String → Kind → Account
account id uid name kind = record {
  id = id;
  user_id = uid;
  name = name;
  currency = "USD";
  is_active = true;
  kind = kind;
  created_at = 0;
}

abbrev pub sample_db : Database
sample_db = record {
  users = user 1 ∷ user 2 ∷ [];
  accounts =
      account 1 1 "cash" normal
      ∷ account 2 1 "bank" normal
      ∷ account 3 2 "other" normal
      ∷ account 4 1 "External" external
      ∷ [];
  transactions = [];
  postings = [];
  idempotency_keys = [];
  outbox = [];
  balance_snapshots = [];
  exports = [];
}

abbrev pub sample_world : World
sample_world = record {
  db = sample_db;
  saved = none;
  deferred = [];
  seqs = record {
    users = 3;
    accounts = 5;
    transactions = 1;
    postings = 1;
    outbox = 1;
    balance_snapshots = 1;
    exports = 1;
  };
  cache = [];
  messages = [];
  tasks = [];
  files = [];
  faults = [];
  now = 1000;
}

-- A month is a million nanoseconds here; no response is cached.
abbrev pub sample_env : Env
sample_env = record {
  store_time = λ t. t;
  local_wall = λ t. t;
  civil_month = λ t. t / 1000000;
  sql_month = λ t. t / 1000000;
  request_digest = λ p. p.note;
  reverse_digest = λ p. p.op;
  marshal_dto = λ d. none;
  unmarshal_dto = λ s. none;
  marshal_event = λ e. some "{}";
  reversal_note = λ id. "reversal";
  go_now = 5000000;
}

abbrev pub at_utc : ℕ → GoTime
at_utc t = record { instant = t; wall = t }

abbrev pub sample_create : CreateInput
sample_create = record {
  user_id = 1;
  account_id = 1;
  amount_minor = pos 500;
  currency = "USD";
  occurred_at = at_utc 700;
  note = "salary";
  idempotency_key = "";
}

abbrev pub sample_transfer : TransferInput
sample_transfer = record {
  user_id = 1;
  from_account_id = 1;
  to_account_id = 2;
  amount_minor = pos 200;
  currency = "USD";
  occurred_at = at_utc 800;
  note = "";
  idempotency_key = "";
}

abbrev pub sample_reverse : ReverseInput
sample_reverse = record { user_id = 1; transaction_id = 1; idempotency_key = "" }

abbrev pub posted : ℕ → ℕ → ℤ → ℕ → Posting
posted id a amount at = record {
  id = id;
  transaction_id = 1;
  account_id = a;
  amount_minor = amount;
  created_at = at;
}

abbrev pub header : ℕ → Option ℕ → Transaction
header id original = record {
  id = id;
  user_id = 1;
  currency = "USD";
  category_id = none;
  occurred_at = 700;
  note = none;
  reversal_of = original;
  created_at = 1000;
}

-- One transaction is posted.
abbrev pub posted_world : World
posted_world = record sample_world {
  db = record sample_db {
    transactions = header 1 none ∷ [];
    postings = posted 1 1 (pos 500) 1000 ∷ posted 2 4 (negsuc 499) 1000 ∷ [];
  };
  seqs = record sample_world.seqs { transactions = 2; postings = 3 };
}

-- It is reversed, too: only the header of the reversal is kept here.
abbrev pub reversed_world : World
reversed_world = record posted_world {
  db = record posted_world.db { transactions = header 1 none ∷ header 2 (some 1) ∷ [] };
}

-- The first day has a snapshot of account 1, and a posting follows on the next day.
abbrev pub later_world : World
later_world = record posted_world {
  db = record posted_world.db {
    postings = posted 1 1 (pos 500) 1000 ∷ posted 2 1 (pos 30) 86400000000000 ∷ [];
    balance_snapshots =
        record { id = 1; account_id = 1; as_of_date = 0; balance_minor = pos 500; created_at = 1 }
        ∷ [];
  };
  faults = failed ∷ fine ∷ [];
}
