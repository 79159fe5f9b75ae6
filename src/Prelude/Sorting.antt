-- ===== src/Prelude/Sorting.antt =====
-- ORDER BY: a stable insertion sort by a test that stands for "not after".
use mathlib.Core.Bool.{Bool, true, false}
use mathlib.Core.List.{List, [], ◌∷◌}
use Prim.Native.Nat.{ℕ}
use mathlib.Core.Path.{◌≡◌}
use mathlib.Core.Logic.{◌↔◌, ◌⊎◌, inl, inr}
use bonerepo.Prelude.Lists.{Among, here, there}
use bonerepo.Prelude.Tests.{ltb, ◌==◌, if◌then◌else◌}

module _ {ℓ} {A : Type ℓ} (before : A → A → Bool) where
  unfoldable pub place : A → List A → List A
  place a [] = a ∷ []
  place a (x ∷ xs) = let rest = place a xs in if before a x then a ∷ x ∷ xs else x ∷ rest

  unfoldable pub sort : List A → List A
  unfolding place
  sort [] = []
  sort (x ∷ xs) = place x (sort xs)

  placed_of :
      (first : Bool) (a x s : A) (xs rest : List A)
      → (Among s rest → (s ≡ a) ⊎ Among s xs)
      → Among s (if first then a ∷ x ∷ xs else x ∷ rest)
      → (s ≡ a) ⊎ Among s (x ∷ xs)
  placed_of true a x s xs rest inside (here e) = inl e
  placed_of true a x s xs rest inside (there m) = inr m
  placed_of false a x s xs rest inside (here e) = inr (here e)
  placed_of false a x s xs rest inside (there m) = elim (inside m) [
    | inl e ↦ inl e
    | inr n ↦ inr (there n)
  ]

  place_into :
      (first : Bool) (a x s : A) (xs rest : List A)
      → ((s ≡ a) ⊎ Among s xs → Among s rest)
      → (s ≡ a) ⊎ Among s (x ∷ xs)
      → Among s (if first then a ∷ x ∷ xs else x ∷ rest)
  place_into true a x s xs rest inside (inl e) = here e
  place_into true a x s xs rest inside (inr m) = there m
  place_into false a x s xs rest inside (inl e) = there (inside (inl e))
  place_into false a x s xs rest inside (inr (here e)) = here e
  place_into false a x s xs rest inside (inr (there m)) = there (inside (inr m))

  pub Among-place : (a s : A) (xs : List A) → Among s (place a xs) ↔ ((s ≡ a) ⊎ Among s xs)
  unfolding place
  Among-place a s [] = (
    λ m. elim m [ here e ↦ inl e | there n ↦ inr n ],
    λ o. elim o [ inl e ↦ here e | inr n ↦ there n ],
  )
  Among-place a s (x ∷ xs) =
      let inside = Among-place a s xs in
      (
        placed_of (before a x) a x s xs (place a xs) inside.0,
        place_into (before a x) a x s xs (place a xs) inside.1,
      )

  pub Among-sort : (s : A) (xs : List A) → Among s (sort xs) ↔ Among s xs
  unfolding sort
  Among-sort s [] = (λ m. m, λ m. m)
  Among-sort s (x ∷ xs) =
      let placed = Among-place x s (sort xs) in
      let inside = Among-sort s xs in
      (
        λ m. elim (placed.0 m) [ inl e ↦ here e | inr n ↦ there (inside.0 n) ],
        λ m. elim m [ here e ↦ placed.1 (inl e) | there n ↦ placed.1 (inr (inside.1 n)) ],
      )

-- Texts in the order of their code points.
unfoldable pub text_leb : List ℕ → List ℕ → Bool
text_leb [] t = true
text_leb (a ∷ s) [] = false
text_leb (a ∷ s) (b ∷ t) =
    let rest = text_leb s t in if ltb a b then true else if a == b then rest else false
