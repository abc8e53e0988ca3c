-- ===== src/Repo/Outbox.antt =====
-- internal/repo/sqlc/outbox.sql.go
use ledger_x.Prelude.{◌+◌, String, none, [], ◌∷◌, ◌++◌}
use ledger_x.Repo.Models.{Outbox}
use ledger_x.Repo.World.{ok, Action, call}

unfoldable pub insert_event : String → String → Action Outbox
insert_event event_type payload w =
    let row : Outbox = record {
      id = w.seqs.outbox;
      event_type = event_type;
      payload = payload;
      created_at = w.now;
      processed_at = none;
    } in
    (
      ok row,
      record w {
        seqs = record w.seqs { outbox = w.seqs.outbox + 1 };
        db = record w.db { outbox = w.db.outbox ++ row ∷ [] };
      },
    )

unfoldable pub create_outbox_event : String → String → Action Outbox
create_outbox_event event_type payload = call (insert_event event_type payload)
