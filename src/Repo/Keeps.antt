-- ===== src/Repo/Keeps.antt =====
-- Invariants that an action keeps, whether it succeeds or not.
use ledger_x.Repo.World.{
  ◌>>=◌, unacknowledged, raise_if, raise, pure, one_row, ok, next_fault, found, fine, failed, err,
  continue, call, attempt, answer, Result, Fault, Error, Action, World,
}
use ledger_x.Prelude.{true, some, none, if◌then◌else◌, false, Option, List, Bool}

pub record Keeps {A : Type 0} (P : World → Type 0) (m : Action A) : Type 0 where
  pub at : (w : World) → P w → P (m w).1

module _ {A : Type 0} {P : World → Type 0} where
  pub Keeps-pure : (a : A) → Keeps P (pure a)
  Keeps-pure a = record { at = λ w h. h }

  pub Keeps-raise : (e : Error) → Keeps P (raise {A = A} e)
  Keeps-raise e = record { at = λ w h. h }

  -- A read of one row.
  pub Keeps-query : (f : World → Option A) → Keeps P (λ w. one_row (f w) w)
  Keeps-query f = record { at = λ w h. scanned (f w) w h }
    where
      scanned : (o : Option A) (w : World) → P w → P (one_row o w).1
      scanned none w h = h
      scanned (some a) w h = h

  pub Keeps-attempt : (m : Action A) → Keeps P m → Keeps P (attempt m)
  unfolding attempt
  Keeps-attempt m k = record { at = k.at }

  pub Keeps-found : (missing : Error) (r : Result A) → Keeps P (found missing r)
  unfolding found
  Keeps-found missing (ok a) = Keeps-pure a
  Keeps-found missing (err e) = Keeps-raise _

  pub Keeps-if : (b : Bool) (m n : Action A) → Keeps P m → Keeps P n → Keeps P (if b then m else n)
  Keeps-if true m n k l = k
  Keeps-if false m n k l = l

  Keeps-answer : (f : Fault) (m : Action A) → Keeps P m → Keeps P (answer f m)
  unfolding answer
  Keeps-answer fine m k = k
  Keeps-answer failed m k = record { at = λ w h. h }
  Keeps-answer unacknowledged m k = record { at = k.at }

  -- `P` must not speak of the faults still to come.
  pub Keeps-call :
      (m : Action A)
      → ((w : World) (fs : List Fault) → P w → P (record w { faults = fs }))
      → Keeps P m
      → Keeps P (call m)
  unfolding call
  Keeps-call m stable k = record {
    at = λ w h. (Keeps-answer (next_fault w.faults) m k).at _ (stable w _ h);
  }

pub Keeps-raise_if : {P : World → Type 0} (b : Bool) (e : Error) → Keeps P (raise_if b e)
Keeps-raise_if true e = Keeps-raise e
Keeps-raise_if false e = Keeps-pure tt

module _ {A B : Type 0} {P : World → Type 0} where
  Keeps-continue :
      (r : Result A) (f : A → Action B) → ((a : A) → Keeps P (f a)) → Keeps P (continue r f)
  Keeps-continue (ok a) f k = k a
  Keeps-continue (err e) f k = Keeps-raise e

  pub Keeps-bind :
      (m : Action A) (f : A → Action B) → Keeps P m → ((a : A) → Keeps P (f a)) → Keeps P (m >>= f)
  unfolding ◌>>=◌
  Keeps-bind m f km kf = record {
    at = λ w h. let (r, w') = m w in (Keeps-continue r f kf).at w' (km.at w h);
  }

pub ruleset keeps_rules =
    (Keeps-pure, Keeps-raise, Keeps-attempt, Keeps-found, Keeps-if, Keeps-raise_if, Keeps-bind)
