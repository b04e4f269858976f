-- ===== src/Wire/Outcome.antt =====
-- Reasoning about a call's two outcomes: what holds of the state after success, and after an error.
use go_xport.Common.{◌≡◌, subst}
use go_xport.Wire.Io.{Exec, Result, ok, err, TransferError, and_then, ◌>>=◌}

module _ {S A : Type 0} where
  -- `done` holds of the state after success, `failed` of that after an error.
  abbrev pub Outcome : (S → Type 0) → (S → Type 0) → Result A × S → Type 0
  Outcome done failed (ok a, s) = done s
  Outcome done failed (err e, s) = failed s

module _ {S A B : Type 0} where
  pub bind-Outcome :
      (mid done failed : S → Type 0) (m : Exec S A) (f : A → Exec S B) (s : S)
      → Outcome mid failed (m s)
      → ((a : A) (t : S) → mid t → Outcome done failed (f a t))
      → Outcome done failed ((m >>= f) s)
  bind-Outcome mid done failed m f s h k = step (m s) h
    where
      step : (r : Result A × S) → Outcome mid failed r → Outcome done failed (and_then r f)
      step (ok a, t) h = k a t h
      step (err e, t) h = h

module _ {S A : Type 0} (done failed : S → Type 0) where
  pub Outcome-ok :
      (r : Result A × S) {a : A} {t : S} → r ≡ (ok a, t) → Outcome done failed r → done t
  Outcome-ok r e h = subst (Outcome done failed) e h

  pub Outcome-err :
      (r : Result A × S) {x : TransferError} {t : S}
      → r ≡ (err x, t)
      → Outcome done failed r
      → failed t
  Outcome-err r e h = subst (Outcome done failed) e h
