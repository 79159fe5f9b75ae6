-- ===== src/Store/Keeps.antt =====
-- What an action keeps, whether it returns or raises: one rule for each way to build an action.
use bonerepo.Prelude.{Option, none, some, Bool, true, false, Result, ok, err, if◌then◌else◌}
use bonerepo.Store.{
  World, Failure, integrity, Exec, pure, raise, gets, unless, or_raise, on_integrity, ◌>>=◌,
  continue, recast,
}

pub record Keeps {A : Type 0} (P : World → Type 0) (m : Exec A) : Type 0 where
  pub at : (w : World) → P w → P (m w).1

recast-Keeps :
    {A : Type 0} (Q : World → Type 0) (e : Failure) (r : Result Failure A × World)
    → Q r.1
    → Q (recast e r).1
unfolding recast
recast-Keeps Q e (ok a, w) h = h
recast-Keeps Q e (err integrity, w) h = h
recast-Keeps Q e (err _, w) h = h

module _ {P : World → Type 0} where
  pub Keeps-pure : {A : Type 0} (a : A) → Keeps P (pure a)
  unfolding pure
  Keeps-pure a = record { at = λ w h. h }

  pub Keeps-raise : {A : Type 0} (e : Failure) → Keeps P (raise {A = A} e)
  unfolding raise
  Keeps-raise e = record { at = λ w h. h }

  pub Keeps-gets : {A : Type 0} (f : World → A) → Keeps P (gets f)
  unfolding gets
  Keeps-gets f = record { at = λ w h. h }

  pub Keeps-unless : (b : Bool) (e : Failure) → Keeps P (unless b e)
  unfolding unless
  Keeps-unless true e = record { at = λ w h. h }
  Keeps-unless false e = record { at = λ w h. h }

  pub Keeps-or_raise : {A : Type 0} (e : Failure) (a : Option A) → Keeps P (or_raise e a)
  unfolding or_raise
  Keeps-or_raise e none = record { at = λ w h. h }
  Keeps-or_raise e (some a) = record { at = λ w h. h }

  pub Keeps-if :
      {A : Type 0} (b : Bool) (m n : Exec A) → Keeps P m → Keeps P n → Keeps P (if b then m else n)
  Keeps-if true m n km kn = km
  Keeps-if false m n km kn = kn

  continue-Keeps :
      {A B : Type 0} (r : Result Failure A × World) (f : A → Exec B)
      → ((a : A) → Keeps P (f a))
      → P r.1
      → P (continue r f).1
  continue-Keeps (ok a, w) f kf h = (kf a).at w h
  continue-Keeps (err e, w) f kf h = h

  pub Keeps-bind :
      {A B : Type 0} (m : Exec A) (f : A → Exec B)
      → Keeps P m
      → ((a : A) → Keeps P (f a))
      → Keeps P (m >>= f)
  unfolding ◌>>=◌
  Keeps-bind m f km kf = record { at = λ w h. continue-Keeps (m w) f kf (km.at w h) }

  pub Keeps-on_integrity :
      {A : Type 0} (e : Failure) (m : Exec A) → Keeps P m → Keeps P (on_integrity e m)
  unfolding on_integrity
  Keeps-on_integrity e m km = record { at = λ w h. recast-Keeps P e (m w) (km.at w h) }

pub ruleset keeps_rules = (
  Keeps-pure, Keeps-raise, Keeps-gets, Keeps-unless, Keeps-or_raise, Keeps-if, Keeps-bind,
  Keeps-on_integrity,
)
