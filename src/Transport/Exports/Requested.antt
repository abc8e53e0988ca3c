-- ===== src/Transport/Exports/Requested.antt =====
-- What a request of an export leaves without faults.
use ledger_x.Prelude.{
  ◌≡◌, ◌∷◌, ◌==◌, ◌+◌, ◌++◌, ℕ, true, some, refl, none, inr, inl, false, arith, [], String, List,
  Bool-cases,
}
use ledger_x.Repo.Models.{Export}
use ledger_x.Worker.Exports.{Formats, ExportCsvPayload}
use ledger_x.Worker.Exports.States.{moved, kept, Pairwise, Moves}
use ledger_x.Repo.World.{◌>>=◌, ok, call, answer, World, Task}
use ledger_x.Repo.Exports.{insert_export, find_export, create_export}
use ledger_x.Transport.Exports.{
  to_export_dto, register_export, post_export, enqueue_export, enqueue,
}
use ledger_x.Service.Samples.{user}
use ledger_x.Repo.Accounts.{user_exists}

keeps_owner :
    (f : Formats) (id : ℕ) (e e' : Export)
    → Moves f id e e'
    → (e'.id ≡ e.id) × (e'.user_id ≡ e.user_id)
keeps_owner f id e e' kept = (refl, refl)
keeps_owner f id e e' (moved at same v) = (refl, refl)

-- A row that is there stays there, and keeps its owner.
pub find_evolved :
    (f : Formats) (id i : ℕ) (e : Export) (es es' : List Export)
    → Pairwise (Moves f id) es es'
    → find_export i es ≡ some e
    → (e' : Export) × ((find_export i es' ≡ some e') × (e'.user_id ≡ e.user_id))
find_evolved f id i e [] es' h k = absurd (none_some k)
  where
    none_some : none ≡ some e → ⊥
    none_some p = cc
find_evolved f id i e (x ∷ es) [] h k = absurd h
find_evolved f id i e (x ∷ es) (y ∷ es') h k = elim (Bool-cases (x.id == i)) [
  | inl hit ↦
      let same : x ≡ e = ground arith in
      let moved_hit : (y.id == i) ≡ true = rw ((keeps_owner f id x y h.0).0) hit in
      rw moved_hit (y, (refl, rw (← same) ((keeps_owner f id x y h.0).1)))
  | inr missed ↦
      let moved_miss : (y.id == i) ≡ false = rw ((keeps_owner f id x y h.0).0) missed in
      rw moved_miss (find_evolved f id i e es es' h.1 (rw missed at k))
]

-- The world after a request of an export without faults.
abbrev pub requested_row : ℕ → ℕ → World → Export
requested_row uid month w = record {
  id = w.seqs.exports;
  user_id = uid;
  month = month;
  status = "pending";
  file_path = none;
  created_at = w.now;
  updated_at = w.now;
}

abbrev pub requested_payload : Formats → ℕ → ℕ → World → ExportCsvPayload
requested_payload f uid month w = record {
  export_id = w.seqs.exports;
  user_id = uid;
  month = f.format_date month;
}

abbrev pub export_task : String → Task
export_task json = record { task_id = none; type_name = "export:csv"; payload = json }

abbrev pub requested : ℕ → ℕ → String → World → World
requested uid month json w = record w {
  db = record w.db { exports = w.db.exports ++ requested_row uid month w ∷ [] };
  seqs = record w.seqs { exports = w.seqs.exports + 1 };
  tasks = w.tasks ++ export_task json ∷ [];
  faults = [];
}

module _ (f : Formats) (uid month : ℕ) (json : String) (w : World) (quiet : w.faults ≡ [])
    (known : user_exists w.db uid ≡ true)
    (encoded : f.marshal_payload (requested_payload f uid month w) ≡ some json) where
  register_export_runs :
      register_export f uid month w
      ≡ (ok (to_export_dto f (requested_row uid month w)), requested uid month json w)
  unfolding register_export create_export insert_export enqueue_export enqueue call answer ◌>>=◌
  register_export_runs = rw quiet (rw known (rw encoded refl))

  pub post_export_runs :
      (uid == 0) ≡ false → (post_export f (some uid) (some month) w).1 ≡ requested uid month json w
  unfolding post_export
  post_export_runs user = rw (user, register_export_runs) refl
