-- ===== src/Prelude/Texts/Affixes.antt =====
-- Prefixes and suffixes as equations.
use bonerepo.Prelude.Tests.{||-eq-true}
use mathlib.Core.Path.{◌≡◌, refl, ap}
use mathlib.Core.Logic.{inl, inr}
use mathlib.Core.Bool.{true}
use mathlib.Core.Option.{some}
use mathlib.Core.List.{[], ◌∷◌, ◌++◌}
use native.Mathlib.Omega.{arith}
use bonerepo.Prelude.Texts.{Text, text_eq, text_eq_refl, text_eq_sound, after_prefix, ends_with}

pub after_prefix-append : (p s : Text) → after_prefix p (p ++ s) ≡ some s
unfolding after_prefix
after_prefix-append [] s = refl
after_prefix-append (c ∷ p) s = ground (arith, after_prefix-append p s)

pub after_prefix_sound : (p s r : Text) → after_prefix p s ≡ some r → s ≡ p ++ r
unfolding after_prefix
after_prefix_sound [] s r h = ground arith
after_prefix_sound (c ∷ p) [] r h = cc
after_prefix_sound (c ∷ p) (d ∷ s) r h = ground (arith, after_prefix_sound p s r)

pub ends_with-append : (p q : Text) → ends_with q (p ++ q) ≡ true
unfolding ends_with
ends_with-append [] [] = text_eq_refl []
ends_with-append [] (c ∷ q) = ground (arith, text_eq_refl (c ∷ q))
ends_with-append (c ∷ p) q = ground (arith, ends_with-append p q)

pub ends_with_sound : (q s : Text) → ends_with q s ≡ true → (p : Text) × (s ≡ p ++ q)
unfolding ends_with
ends_with_sound q [] h = ([], ground (arith, text_eq_sound q []))
ends_with_sound q (c ∷ s) h = elim (||-eq-true (text_eq q (c ∷ s)) (ends_with q s) h) [
  | inl e ↦ ([], cc (text_eq_sound q (c ∷ s) e))
  | inr e ↦ let found = ends_with_sound q s e in (c ∷ found.0, ap (λ t. c ∷ t) found.1)
]
