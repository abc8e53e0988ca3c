-- ===== src/Repo/Atomic.antt =====
-- A whole transaction, from its first statement to the deferred rollback: all of it or nothing.
use ledger_x.Repo.World.{
  unacknowledged, ◌>>◌, next_fault, fine, failed, Fault, ◌>>=◌, unavailable, pure, ok, err,
  continue, Result, Error, CacheEntry, Action, World,
}
use ledger_x.Repo.Commit.{
  lost, done, refused, rollback_closed, rollback-RolledBack, commit-Committed, Permanent,
  RolledBack, IsBalanced, Committed,
}
use ledger_x.Repo.Models.{Database}
use ledger_x.Prelude.{◌⊎◌, inl, some, refl, inr, ap, ◌∙◌, ◌≡◌, none, List}
use ledger_x.Repo.Tx.{with_rollback, begin_after, begin, rollback, commit}
use ledger_x.Repo.Inside.{Inside}
use ledger_x.Repo.Keeps.{Keeps}
use ledger_x.Repo.Outcome.{Yields}

-- How a call with a transaction ends, from tables `d` and cache `c`: an error and nothing changed;
-- an answer read from what an earlier call stored; all of it committed; or all of it committed with
-- the reply to COMMIT lost, which the caller sees as an error.
pub data Atomic {Y : Type 0} (d : Database) (c : List CacheEntry) (Stored : Y → Type 0)
    (Done : Y → Database → Type 0) : Result Y × World → Type 0 where
  undone : (e : Error) (w : World) → RolledBack d c w → Atomic d c Stored Done (err e, w)
  replayed : (y : Y) (w : World) → Stored y → RolledBack d c w → Atomic d c Stored Done (ok y, w)
  committed :
      (y : Y) (w : World)
      → Done y w.db
      → IsBalanced w.db.postings
      → w.saved ≡ none
      → Atomic d c Stored Done (ok y, w)
  unheard :
      (y : Y) (w : World)
      → Done y w.db
      → IsBalanced w.db.postings
      → w.cache ≡ c
      → w.saved ≡ none
      → Atomic d c Stored Done (err unavailable, w)

-- Work after the commit that cannot fail and touches the cache at most.
pub record CacheOnly (m : Action Unit) : Type 0 where
  pub after : World → World
  pub runs : (w : World) → m w ≡ (ok tt, after w)
  pub db_same : (w : World) → (after w).db ≡ w.db
  pub saved_same : (w : World) → (after w).saved ≡ w.saved

-- The deferred rollback, on the outcome of a body.
abbrev pub finally : {Y : Type 0} → Result Y × World → Result Y × World
finally (r, w) = (r, rollback w)

module _ {X Y : Type 0} (d : Database) (c : List CacheEntry) (Stored : Y → Type 0)
    (Done : Y → Database → Type 0) (tail : X → Action Unit) (result : X → Y)
    (tail_safe : (x : X) → CacheOnly (tail x)) where
  -- The last steps: commit, the work after it, and the answer.
  abbrev pub settle : X → Action Y
  settle x = commit >>= λ _. tail x >>= λ _. pure (result x)

  after_tail :
      (x : X) (w w' : World)
      → Done (result x) w.db
      → Permanent w w'
      → Atomic d c Stored Done (finally ((tail x >>= λ _. pure (result x)) w'))
  unfolding ◌>>=◌
  after_tail x w w' h p =
      let t = tail_safe x in
      let closed : (t.after w').saved ≡ none = t.saved_same w' ∙ p.closed in
      let db_is : (t.after w').db ≡ w.db = t.db_same w' ∙ p.db_is in
      rw (t.runs w') (
        rw (rollback_closed (t.after w') closed)
          (committed (result x) (t.after w') (rw db_is h) (rw (t.db_same w') p.balanced) closed))

  after_commit :
      (x : X) (w : World) (r : Result Unit × World)
      → Done (result x) w.db
      → w.cache ≡ c
      → Committed d c w r
      → Atomic d c Stored Done (finally (continue r.0 (λ _. tail x >>= λ _. pure (result x)) r.1))
  after_commit x w _ h same (refused e w' back) = undone e (rollback w') back
  after_commit x w _ h same (done w' p) = after_tail x w w' h p
  after_commit x w _ h same (lost w' p) =
      rw (rollback_closed w' p.closed)
        (unheard (result x) w' (rw p.db_is h) p.balanced (p.cache_is ∙ same) p.closed)

  settle-Atomic :
      (x : X) (w : World)
      → Inside d c w
      → Done (result x) w.db
      → Atomic d c Stored Done (finally (settle x w))
  unfolding ◌>>=◌
  settle-Atomic x w h k = after_commit x w (commit w) k h.cache_is (commit-Committed d c w h)

  after_write :
      (r : Result X × World)
      → Inside d c r.1
      → Yields (λ x w'. Done (result x) w'.db) r
      → Atomic d c Stored Done (finally (continue r.0 settle r.1))
  after_write (ok x, w) h y = settle-Atomic x w h y.at
  after_write (err e, w) h y = undone e (rollback w) (rollback-RolledBack d c w h)

  -- A body that writes, commits, does its other work and answers.
  pub write-Atomic :
      (write : Action X) (w : World)
      → Keeps (Inside d c) write
      → Yields (λ x w'. Done (result x) w'.db) (write w)
      → Inside d c w
      → Atomic d c Stored Done (finally ((write >>= settle) w))
  unfolding ◌>>=◌
  write-Atomic write w k y h = after_write (write w) (k.at w h) y

-- A transaction can start: none is open, and the ledger is balanced.
pub record IsReady (w : World) : Type 0 where
  pub idle : w.saved ≡ none
  pub balanced : IsBalanced w.db.postings

module _ {Y : Type 0} (Stored : Y → Type 0) (Done : Y → Database → Type 0) (body : Action Y)
    (w : World) (ready : IsReady w)
    (runs : (w' : World)
      → w'.db ≡ w.db
      → Inside w.db w.cache w'
      → Atomic w.db w.cache Stored Done (with_rollback body w')) where
  started_by :
      (f : Fault) (v : World)
      → v.db ≡ w.db
      → v.cache ≡ w.cache
      → v.saved ≡ w.saved
      → Atomic w.db w.cache Stored Done
          (continue (begin_after f v).0 (λ _. with_rollback body) (begin_after f v).1)
  unfolding begin_after
  started_by fine v a b s =
      runs _ a (record {
        saved_is = ap some a;
        cache_is = b;
        covered = λ t. inr (rw a (ready.balanced t));
      })
  started_by failed v a b s =
      undone _ v (record { db_is = a; cache_is = b; closed = s ∙ ready.idle })
  started_by unacknowledged v a b s =
      undone _ v (record { db_is = a; cache_is = b; closed = s ∙ ready.idle })

  -- BEGIN gives up with nothing changed, or opens a transaction.
  pub begin-Atomic : Atomic w.db w.cache Stored Done ((begin >> with_rollback body) w)
  unfolding begin ◌>>=◌
  begin-Atomic = started_by (next_fault w.faults) _ refl refl refl

-- Whatever the outcome, the next transaction can start.
pub Atomic-IsReady :
    {Y : Type 0} {d : Database} {c : List CacheEntry} {Stored : Y → Type 0}
    {Done : Y → Database → Type 0} {r : Result Y × World}
    → IsBalanced d.postings
    → Atomic d c Stored Done r
    → IsReady r.1
Atomic-IsReady b (undone e w back) = record { idle = back.closed; balanced = rw back.db_is b }
Atomic-IsReady b (replayed y w s back) = record { idle = back.closed; balanced = rw back.db_is b }
Atomic-IsReady b (committed y w h k idle) = record { idle = idle; balanced = k }
Atomic-IsReady b (unheard y w h k same idle) = record { idle = idle; balanced = k }

-- The tables are as they were, or hold the whole of one call.
pub Atomic-cases :
    {Y : Type 0} {d : Database} {c : List CacheEntry} {Stored : Y → Type 0}
    {Done : Y → Database → Type 0} {r : Result Y × World}
    → Atomic d c Stored Done r
    → (r.1.db ≡ d) ⊎ ((y : Y) × Done y r.1.db)
Atomic-cases (undone e w back) = inl back.db_is
Atomic-cases (replayed y w s back) = inl back.db_is
Atomic-cases (committed y w h k idle) = inr (y, h)
Atomic-cases (unheard y w h k same idle) = inr (y, h)
