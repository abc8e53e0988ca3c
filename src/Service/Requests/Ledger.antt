-- ===== src/Service/Requests/Ledger.antt =====
-- The requests refine the journal.
use ledger_x.Repo.World.{World}
