-- ===== src/Repo/Outcome.antt =====
-- What an action ensures when it succeeds, rule by rule.
use ledger_x.Prelude.{if◌then◌else◌, Bool, true, false, Option, none, some, ◌≡◌, refl}
use ledger_x.Repo.World.{
  World, Error, Fault, fine, failed, unacknowledged, Result, ok, err, Action, continue, ◌>>=◌,
  answer, call, attempt, found, is_no_rows, one_row, later_faults, next_fault, raise_if,
  unavailable,
}

-- A result that is no error satisfies `Q`.
abbrev pub OnOk : {A : Type 0} → (A → World → Type 0) → Result A × World → Type 0
OnOk Q (ok a, w) = Q a w
OnOk Q (err e, w) = Unit

pub record Yields {A : Type 0} (Q : A → World → Type 0) (r : Result A × World) : Type 0 where
  pub at : OnOk Q r

-- The same, with what an error leaves.
abbrev pub OnBoth :
    {A : Type 0} → (A → World → Type 0) → (Error → World → Type 0) → Result A × World → Type 0
OnBoth Q E (ok a, w) = Q a w
OnBoth Q E (err e, w) = E e w

pub record Ends {A : Type 0} (Q : A → World → Type 0) (E : Error → World → Type 0)
    (r : Result A × World) : Type 0 where
  pub at : OnBoth Q E r

-- A query that finds no row has left the state so.
abbrev pub NoRows : (World → Type 0) → Error → World → Type 0
NoRows P e w = is_no_rows e ≡ true → P w

module _ {A : Type 0} {Q : A → World → Type 0} where
  pub Yields-ok : (a : A) (w : World) → Q a w → Yields Q (ok a, w)
  Yields-ok a w h = record { at = h }

  pub Yields-err : (e : Error) (w : World) → Yields Q (err e, w)
  Yields-err e w = record { at = tt }

  pub if-Yields :
      (b : Bool) (r s : Result A × World)
      → (b ≡ true → Yields Q r)
      → (b ≡ false → Yields Q s)
      → Yields Q (if b then r else s)
  if-Yields true r s h k = h refl
  if-Yields false r s h k = k refl

  pub weaken-Yields :
      (R : A → World → Type 0) (r : Result A × World)
      → Yields R r
      → ((a : A) (w : World) → R a w → Q a w)
      → Yields Q r
  weaken-Yields R (ok a, w) h k = record { at = k a w h.at }
  weaken-Yields R (err e, w) h k = record { at = tt }

  answer-Yields : (f : Fault) (m : Action A) (w : World) → Yields Q (m w) → Yields Q (answer f m w)
  unfolding answer
  answer-Yields fine m w h = h
  answer-Yields failed m w h = Yields-err unavailable w
  answer-Yields unacknowledged m w h = Yields-err unavailable (m w).1

  pub call-Yields :
      (m : Action A) (w : World)
      → Yields Q (m (record w { faults = later_faults w.faults }))
      → Yields Q (call m w)
  unfolding call
  call-Yields m w h = answer-Yields (next_fault w.faults) m _ h

  pub found-Yields :
      (missing : Error) (r : Result A) (w : World) → Yields Q (r, w) → Yields Q (found missing r w)
  unfolding found
  found-Yields missing (ok a) w h = h
  found-Yields missing (err e) w h = Yields-err _ w

  pub attempt-Yields :
      (m : Action A) (w : World) → Yields Q (m w) → Yields (λ r w'. Yields Q (r, w')) (attempt m w)
  unfolding attempt
  attempt-Yields m w h = record { at = h }

  pub Yields_at : (a : A) (r : Result A × World) (w : World) → Yields Q r → r ≡ (ok a, w) → Q a w
  Yields_at a r w h e = (rw e at h).at

module _ {A : Type 0} {Q : A → World → Type 0} {P : World → Type 0} where
  -- A lost connection is no missing row, so what a query says of missing rows it says of a call.
  answer-Ends :
      (f : Fault) (m : Action A) (w : World)
      → Ends Q (NoRows P) (m w)
      → Ends Q (NoRows P) (answer f m w)
  unfolding answer
  answer-Ends fine m w h = h
  answer-Ends failed m w h = record { at = λ e. cc }
  answer-Ends unacknowledged m w h = record { at = λ e. cc }

  pub call-Ends :
      (m : Action A) (w : World)
      → Ends Q (NoRows P) (m (record w { faults = later_faults w.faults }))
      → Ends Q (NoRows P) (call m w)
  unfolding call
  call-Ends m w h = answer-Ends (next_fault w.faults) m _ h

module _ {A : Type 0} {Q : A → World → Type 0} {E : Error → World → Type 0} where
  pub attempt-Ends :
      (m : Action A) (w : World) → Ends Q E (m w) → Yields (λ r w'. Ends Q E (r, w')) (attempt m w)
  unfolding attempt
  attempt-Ends m w h = record { at = h }

  pub Ends-Yields : (r : Result A × World) → Ends Q E r → Yields Q r
  Ends-Yields (ok a, w) h = record { at = h.at }
  Ends-Yields (err e, w) h = record { at = tt }

module _ {A B : Type 0} {Q : B → World → Type 0} (R : A → World → Type 0) where
  continue-Yields :
      (f : A → Action B) (r : Result A) (w : World)
      → Yields R (r, w)
      → ((a : A) (w' : World) → R a w' → Yields Q (f a w'))
      → Yields Q (continue r f w)
  continue-Yields f (ok a) w h k = k a w h.at
  continue-Yields f (err e) w h k = Yields-err e w

  pub bind-Yields :
      (m : Action A) (f : A → Action B) (w : World)
      → Yields R (m w)
      → ((a : A) (w' : World) → R a w' → Yields Q (f a w'))
      → Yields Q ((m >>= f) w)
  unfolding ◌>>=◌
  bind-Yields m f w h k = let (r, w') = m w in continue-Yields f r w' h k

pub one_row-Yields :
    {A : Type 0} (o : Option A) (w : World) → Yields (λ a w'. (o ≡ some a) × (w' ≡ w)) (one_row o w)
one_row-Yields none w = Yields-err _ w
one_row-Yields (some a) w = Yields-ok a w (refl, refl)

pub raise_if-Yields :
    (b : Bool) (e : Error) (w : World) → Yields (λ _ w'. (b ≡ false) × (w' ≡ w)) (raise_if b e w)
raise_if-Yields true e w = Yields-err e w
raise_if-Yields false e w = Yields-ok tt w (refl, refl)
