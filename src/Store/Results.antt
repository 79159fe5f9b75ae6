-- ===== src/Store/Results.antt =====
-- What an action did, from what it returned.
use mathlib.Core.Path.{subst}
use bonerepo.Prelude.{◌≡◌, refl, Option, none, some, Result, ok, err}
use bonerepo.Store.{
  World, Failure, Exec, ◌>>=◌, continue, or_raise, on_integrity, recast, integrity,
}
use bonerepo.Store.Keeps.{Keeps}

-- The first action of a sequence that returned has returned.
pub record Ran {A B : Type 0} (m : Exec A) (f : A → Exec B) (w : World) (b : B) (w' : World)
    : Type 0 where
  pub value : A
  pub world : World
  pub started : m w ≡ (ok value, world)
  pub continued : f value world ≡ (ok b, w')

continue-Ran :
    {A B : Type 0} (m : Exec A) (f : A → Exec B) (w : World) (b : B) (w' : World)
    (r : Result Failure A × World)
    → m w ≡ r
    → continue r f ≡ (ok b, w')
    → Ran m f w b w'
continue-Ran m f w b w' (ok a, v) e h = record { value = a; world = v; started = e; continued = h }
continue-Ran m f w b w' (err x, v) e h = cc

pub bind-Ran :
    {A B : Type 0} (m : Exec A) (f : A → Exec B) (w : World) (b : B) (w' : World)
    → (m >>= f) w ≡ (ok b, w')
    → Ran m f w b w'
unfolding ◌>>=◌
bind-Ran m f w b w' h = continue-Ran m f w b w' (m w) refl h

pub kept_after :
    {A : Type 0} {P : World → Type 0} {m : Exec A} {w : World} {r : Result Failure A} {w' : World}
    → Keeps P m
    → m w ≡ (r, w')
    → P w
    → P w'
kept_after {P = P} k e h = subst (λ x. P x.1) e (k.at _ h)

pub or_raise-ok :
    {A : Type 0} (e : Failure) (found : Option A) (w : World) (a : A) (w' : World)
    → or_raise e found w ≡ (ok a, w')
    → (found ≡ some a) × (w ≡ w')
unfolding or_raise
or_raise-ok e none w a w' h = cc
or_raise-ok e (some b) w a w' h = (cc, cc)

recast-ok :
    {A : Type 0} (e : Failure) (r : Result Failure A × World) (a : A) (w : World)
    → recast e r ≡ (ok a, w)
    → r ≡ (ok a, w)
unfolding recast
recast-ok e (ok b, v) a w h = h
recast-ok e (err integrity, v) a w h = cc
recast-ok e (err _, v) a w h = h

pub on_integrity-ok :
    {A : Type 0} (e : Failure) (m : Exec A) (w : World) (a : A) (w' : World)
    → on_integrity e m w ≡ (ok a, w')
    → m w ≡ (ok a, w')
unfolding on_integrity
on_integrity-ok e m w a w' h = recast-ok e (m w) a w' h
