-- ===== src/Prelude/Lists.antt =====
-- Lists over the native numbers, Boolean folds, and membership with the position kept.
use Prim.Native.Nat.{ℕ, zero, suc, ◌+◌}
use mathlib.Core.Path.{◌≡◌, refl, ap}
use mathlib.Core.Logic.{inl, inr}
use mathlib.Core.Bool.{Bool, true, false, ◌&&◌, ◌||◌}
use mathlib.Core.Option.{Option, none, some}
use mathlib.Core.List.{List, [], ◌∷◌, ◌++◌}
use native.Mathlib.Omega.{arith}
use bonerepo.Prelude.Tests.{Bool-cases, if◌then◌else◌, ||-eq-true}

-- `Among a xs`: `a` is an element of `xs`, with its place.
pub data Among {ℓ} {A : Type ℓ} (a : A) : List A → Type ℓ where
  here : {b : A} {xs : List A} → a ≡ b → Among a (b ∷ xs)
  there : {b : A} {xs : List A} → Among a xs → Among a (b ∷ xs)

module _ {ℓ} {A : Type ℓ} where
  abbrev pub length : List A → ℕ
  length [] = 0
  length (x ∷ xs) = suc (length xs)

  abbrev pub take : ℕ → List A → List A
  take zero xs = []
  take (suc n) [] = []
  take (suc n) (x ∷ xs) = x ∷ take n xs

  -- Python's `any` and `all`, and a comprehension's filter.
  unfoldable pub any_of : (A → Bool) → List A → Bool
  any_of p [] = false
  any_of p (x ∷ xs) = p x || any_of p xs

  unfoldable pub all_of : (A → Bool) → List A → Bool
  all_of p [] = true
  all_of p (x ∷ xs) = p x && all_of p xs

  unfoldable pub keep : (A → Bool) → List A → List A
  keep p [] = []
  keep p (x ∷ xs) = let rest = keep p xs in if p x then x ∷ rest else rest

  -- The first element that passes.
  unfoldable pub first : (A → Bool) → List A → Option A
  first p [] = none
  first p (x ∷ xs) = let rest = first p xs in if p x then some x else rest

  pub length-append : (xs ys : List A) → length (xs ++ ys) ≡ length xs + length ys
  length-append [] ys = omega arith
  length-append (x ∷ xs) ys = omega (arith, length-append xs ys)

  pub any_of-Among :
      (p : A → Bool) (xs : List A) → any_of p xs ≡ true → (a : A) × Among a xs × (p a ≡ true)
  unfolding any_of
  any_of-Among p [] h = cc
  any_of-Among p (x ∷ xs) h = elim (||-eq-true (p x) (any_of p xs) h) [
    | inl e ↦ (x, here refl, e)
    | inr e ↦ let found = any_of-Among p xs e in (found.0, there found.1, found.2)
  ]

  pub Among-any_of :
      (p : A → Bool) (a : A) (xs : List A) → Among a xs → p a ≡ true → any_of p xs ≡ true
  unfolding any_of
  Among-any_of p a [] m h = elim m [ ]
  Among-any_of p a (x ∷ xs) (here e) h = ground (arith, ap p e)
  Among-any_of p a (x ∷ xs) (there m) h = ground (arith, Among-any_of p a xs m h)

  pub all_of-Among :
      (p : A → Bool) (a : A) (xs : List A) → all_of p xs ≡ true → Among a xs → p a ≡ true
  unfolding all_of
  all_of-Among p a [] h m = elim m [ ]
  all_of-Among p a (x ∷ xs) h (here e) = ground (arith, ap p e)
  all_of-Among p a (x ∷ xs) h (there m) = ground (arith, all_of-Among p a xs)

-- What `first` finds is there, and passes.
pub first-Among :
    {A : Type 0} (p : A → Bool) (xs : List A) (a : A)
    → first p xs ≡ some a
    → Among a xs × (p a ≡ true)
unfolding first
first-Among p [] a h = cc
first-Among p (x ∷ xs) a h = elim (Bool-cases (p x)) [
  | inl e ↦
      let same : x ≡ a = ground (arith, h, e) in
      (here (ground (arith, same)), ground (arith, ap p same, e))
  | inr e ↦ let rest = first-Among p xs a (ground (arith, h, e)) in (there rest.0, rest.1)
]
