-- ===== src/Transport/Tests.antt =====
-- The rate limiter on a short history.
use ledger_x.Prelude.{none, inr, inl, ◌≤◌, ◌≡◌, ◌∷◌, ◌<◌, some, refl, arith, [], List}
use ledger_x.Transport.RateLimit.{
  take_token, run_script, refilled, new_rate_limiter, middleware, allow, RateLimiter, Arrival,
}
use ledger_x.Transport.RateLimit.Traffic.{count_served_bound, count_served}
use ledger_x.Repo.World.{World, fine}
use ledger_x.Prelude.Int.{pos_part, pos, negsuc}
use ledger_x.Transport.RateLimit.Bounds.{new_rate_limiter_lem}
use ledger_x.Service.Samples.{sample_world, sample_env, sample_db, account}
use ledger_x.Transport.Handlers.{get_current}
use ledger_x.Transport.Handlers.Hidden.{get_current_hidden}
use ledger_x.Repo.Models.{Database, normal}
use ledger_x.Repo.Entries.{is_before, entries_of, Cursor}
use ledger_x.Transport.Listing.{browse}
use ledger_x.Transport.Listing.Complete.{browse_complete}
use ledger_x.Prelude.Select.{where_rows}

-- Two requests at once and one a second later, at one token a second and a burst of one.
abbrev arrivals : List Arrival
arrivals =
    record { key = some "user:1"; now = 10; fault = fine }
    ∷ record { key = some "user:1"; now = 10; fault = fine }
    ∷ record { key = some "user:1"; now = 11; fault = fine }
    ∷ []

abbrev limiter : RateLimiter
limiter = record { capacity = pos 1; rate = pos 1 }

two_served : count_served limiter "user:1" arrivals [] ≡ 2
unfolding count_served middleware allow run_script take_token refilled
two_served = refl

count_served_bound_example : count_served limiter "user:1" arrivals [] ≤ 2
count_served_bound_example =
    count_served_bound limiter "user:1" 10 11 arrivals [] (omega arith) refl
      ((omega arith, omega arith), ((omega arith, omega arith), ((omega arith, omega arith), tt)))

new_rate_limiter_example :
    let rl = new_rate_limiter (pos 0) (negsuc 4) in
    (0 < pos_part rl.capacity) × (0 < pos_part rl.rate)
new_rate_limiter_example = new_rate_limiter_lem (pos 0) (negsuc 4)

-- Account 3 is of user 2 in one world, and there are no accounts in the other.
abbrev no_accounts : World
no_accounts = record sample_world { db = record sample_db { accounts = [] } }

get_current_hidden_example :
    (get_current sample_env (some 1) (some 3) sample_world).0
    ≡ (get_current sample_env (some 1) (some 3) no_accounts).0
get_current_hidden_example =
    get_current_hidden sample_env 1 3 sample_world no_accounts
      (inr (account 3 2 "other" normal, (refl, refl))) (inl refl) refl

abbrev two_entries : Database
two_entries = record sample_db {
  transactions =
      record {
        id = 1;
        user_id = 1;
        currency = "USD";
        category_id = none;
        occurred_at = 700;
        note = none;
        reversal_of = none;
        created_at = 1000;
      }
      ∷ [];
  postings =
      record { id = 1; transaction_id = 1; account_id = 1; amount_minor = pos 5; created_at = 1000 }
      ∷ record {
        id = 2;
        transaction_id = 1;
        account_id = 1;
        amount_minor = pos 6;
        created_at = 1000;
      }
      ∷ [];
}

abbrev far_future : Cursor
far_future = record { occurred_at = 9999; posting_id = 9999 }

-- User 1 owns account 1.
abbrev entries_world : World
entries_world = record sample_world {
  db = record two_entries { users = sample_db.users; accounts = sample_db.accounts };
}

browse_complete_example :
    browse 3 1 1 (some 1) far_future entries_world
    ≡ where_rows (is_before far_future) (entries_of 1 entries_world.db)
browse_complete_example =
    browse_complete 3 1 1 0 (some 1) (account 1 1 "cash" normal) far_future entries_world refl refl
      refl refl refl refl ((refl, tt), (tt, tt)) (omega arith)
