-- ===== src/Repo/Commit.antt =====
-- How a transaction ends: the deferred trigger, COMMIT with its three outcomes, and the rollback.
use ledger_x.Repo.World.{
  next_fault, later_faults, unavailable, unacknowledged, trigger_raised, ok, fine, failed, err,
  call, answer, Result, Fault, Error, CacheEntry, World,
}
use ledger_x.Prelude.{
  ◌⊎◌, ◌≡◌, ◌∷◌, ◌==◌, ℕ, true, refl, none, inr, inl, arith, [], List, Bool-cases, ==_iff,
}
use ledger_x.Repo.Models.{Posting, Database}
use ledger_x.Repo.Inside.{faults-Inside, is_deferred, Inside}
use ledger_x.Repo.Tx.{tx_sum, triggers_pass, trigger_passes, rollback, finish, commit}
use ledger_x.Prelude.Int.{pos, eq_ℤ_iff}

-- Every transaction's postings sum to zero.
abbrev pub IsBalanced : List Posting → Type 0
IsBalanced ps = (t : ℕ) → tx_sum t ps ≡ pos 0

trigger_passes_zero : (ps : List Posting) (t : ℕ) → trigger_passes ps t ≡ true → tx_sum t ps ≡ pos 0
unfolding trigger_passes
trigger_passes_zero ps t h = (eq_ℤ_iff (tx_sum t ps) (pos 0)).0 (ground arith)

triggers_pass_zero :
    (ps : List Posting) (ts : List ℕ) (t : ℕ)
    → triggers_pass ps ts ≡ true
    → is_deferred t ts ≡ true
    → tx_sum t ps ≡ pos 0
unfolding triggers_pass
triggers_pass_zero ps [] t h k = cc
triggers_pass_zero ps (u ∷ us) t h k = elim (Bool-cases (u == t)) [
  | inl same ↦ rw (← (==_iff u t).0 same) (trigger_passes_zero ps u (ground arith))
  | inr other ↦ triggers_pass_zero ps us t (ground arith) (ground arith)
]

-- With the trigger passed for all that waited, every transaction is balanced.
Inside-IsBalanced :
    (d : Database) (c : List CacheEntry) (w : World)
    → Inside d c w
    → triggers_pass w.db.postings w.deferred ≡ true
    → IsBalanced w.db.postings
Inside-IsBalanced d c w h passed t = balanced (h.covered t)
  where
    balanced :
        (is_deferred t w.deferred ≡ true) ⊎ (tx_sum t w.db.postings ≡ pos 0)
        → tx_sum t w.db.postings ≡ pos 0
    balanced (inl waits) = triggers_pass_zero w.db.postings w.deferred t passed waits
    balanced (inr zero_sum) = zero_sum

-- After a rollback the tables and the cache are the saved ones, and no transaction is open.
pub record RolledBack (d : Database) (c : List CacheEntry) (w : World) : Type 0 where
  pub db_is : w.db ≡ d
  pub cache_is : w.cache ≡ c
  pub closed : w.saved ≡ none

pub rollback-RolledBack :
    (d : Database) (c : List CacheEntry) (w : World) → Inside d c w → RolledBack d c (rollback w)
unfolding rollback
rollback-RolledBack d c w h =
    rw h.saved_is (record { db_is = refl; cache_is = h.cache_is; closed = refl })

-- Without an open transaction a rollback does nothing.
pub rollback_closed : (w : World) → w.saved ≡ none → rollback w ≡ w
unfolding rollback
rollback_closed w h = rw h refl

-- The state of `w` made permanent.
pub record Permanent (w w' : World) : Type 0 where
  pub db_is : w'.db ≡ w.db
  pub cache_is : w'.cache ≡ w.cache
  pub closed : w'.saved ≡ none
  pub balanced : IsBalanced w'.db.postings

-- COMMIT was not done and the rollback undoes all; or it was; or it was and the reply is lost.
pub data Committed (d : Database) (c : List CacheEntry) (w : World)
    : Result Unit × World → Type 0 where
  refused : (e : Error) (w' : World) → RolledBack d c (rollback w') → Committed d c w (err e, w')
  done : (w' : World) → Permanent w w' → Committed d c w (ok tt, w')
  lost : (w' : World) → Permanent w w' → Committed d c w (err unavailable, w')

module _ (d : Database) (c : List CacheEntry) where
  -- A server-side COMMIT is done, or has rolled back.
  data Finished (w : World) : Result Unit × World → Type 0 where
    raised : (w' : World) → RolledBack d c w' → Finished w (err trigger_raised, w')
    finished : (w' : World) → Permanent w w' → Finished w (ok tt, w')

  finish-Finished : (w : World) → Inside d c w → Finished w (finish w)
  unfolding finish
  finish-Finished w h = elim (Bool-cases (triggers_pass w.db.postings w.deferred)) [
    | inl passed ↦ rw passed (
        finished _ (record {
          db_is = refl;
          cache_is = refl;
          closed = refl;
          balanced = Inside-IsBalanced d c w h passed;
        }))
    | inr violated ↦ rw violated (raised _ (rollback-RolledBack d c w h))
  ]

  refuse : (e : Error) (w w' : World) → RolledBack d c w' → Committed d c w (err e, w')
  refuse e w w' r = refused e w' (rw (rollback_closed w' r.closed) r)

  answer-Committed : (f : Fault) (w : World) → Inside d c w → Committed d c w (answer f finish w)
  unfolding answer
  answer-Committed fine w h = received (finish w) (finish-Finished w h)
    where
      received : (r : Result Unit × World) → Finished w r → Committed d c w r
      received _ (raised w' r) = refuse trigger_raised w w' r
      received _ (finished w' p) = done w' p
  answer-Committed failed w h = refused unavailable w (rollback-RolledBack d c w h)
  answer-Committed unacknowledged w h = unheard (finish w) (finish-Finished w h)
    where
      unheard : (r : Result Unit × World) → Finished w r → Committed d c w (err unavailable, r.1)
      unheard _ (raised w' r) = refuse unavailable w w' r
      unheard _ (finished w' p) = lost w' p

  before_call :
      (w w' : World) (fs : List Fault) → Permanent (record w { faults = fs }) w' → Permanent w w'
  before_call w w' fs p = record {
    db_is = p.db_is;
    cache_is = p.cache_is;
    closed = p.closed;
    balanced = p.balanced;
  }

  call-Committed :
      (w : World) (fs : List Fault) {r : Result Unit × World}
      → Committed d c (record w { faults = fs }) r
      → Committed d c w r
  call-Committed w fs (refused e w' r) = refused e w' r
  call-Committed w fs (done w' p) = done w' (before_call w w' fs p)
  call-Committed w fs (lost w' p) = lost w' (before_call w w' fs p)

  pub commit-Committed : (w : World) → Inside d c w → Committed d c w (commit w)
  unfolding commit call
  commit-Committed w h =
      call-Committed w (later_faults w.faults)
        (answer-Committed (next_fault w.faults) _ (faults-Inside d c w _ h))
