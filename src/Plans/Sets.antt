-- ===== src/Plans/Sets.antt =====
-- Sets of texts, and the order in which Python sorts them.
use bonerepo.Prelude.{
  ◌≡◌, refl, sym, ◌∙◌, Bool, true, false, not, List, [], ◌∷◌, Among, here, there, ◌↔◌,
  if◌then◌else◌, keep, any_of, any_of-Among,
}
use mathlib.Core.Path.{subst}
use bonerepo.Prelude.Texts.{Text, text_eq, text_eq_sound, is_empty}
use bonerepo.Prelude.Sorting.{sort, text_leb, Among-sort}

module _ {A : Type 0} (same : A → A → Bool) where
  unfoldable pub distinct : List A → List A
  unfolding any_of
  distinct [] = []
  distinct (a ∷ rest) =
      let others = distinct rest in if any_of (same a) rest then others else a ∷ others

  module _ (same_sound : (a b : A) → same a b ≡ true → a ≡ b) where
    kept_of :
        (again : Bool) (a x : A) (rest others : List A)
        → (Among x others → Among x rest)
        → Among x (if again then others else a ∷ others)
        → Among x (a ∷ rest)
    kept_of true a x rest others inside m = there (inside m)
    kept_of false a x rest others inside (here e) = here e
    kept_of false a x rest others inside (there m) = there (inside m)

    kept_into :
        (again : Bool) (a x : A) (rest others : List A)
        → any_of (same a) rest ≡ again
        → (Among x rest → Among x others)
        → Among x (a ∷ rest)
        → Among x (if again then others else a ∷ others)
    kept_into true a x rest others h inside (here e) =
        let found = any_of-Among (same a) rest h in
        let equal : found.0 ≡ x = sym (e ∙ same_sound a found.0 found.2) in
        inside (subst (λ y. Among y rest) equal found.1)
    kept_into true a x rest others h inside (there m) = inside m
    kept_into false a x rest others h inside (here e) = here e
    kept_into false a x rest others h inside (there m) = there (inside m)

    pub Among-distinct : (x : A) (xs : List A) → Among x (distinct xs) ↔ Among x xs
    unfolding distinct
    Among-distinct x [] = (λ m. m, λ m. m)
    Among-distinct x (a ∷ rest) =
        let inside = Among-distinct x rest in
        (
          kept_of (any_of (same a) rest) a x rest (distinct rest) inside.0,
          kept_into (any_of (same a) rest) a x rest (distinct rest) refl inside.1,
        )

-- `sorted(set(names))`
unfoldable pub sorted_set : List Text → List Text
unfolding distinct sort text_leb text_eq
sorted_set names = sort text_leb (distinct text_eq names)

-- `sorted({name for name in names if name})`
unfoldable pub sorted_names : List Text → List Text
unfolding sorted_set keep is_empty
sorted_names names = sorted_set (keep (λ s. not (is_empty s)) names)

pub Among-sorted_set :
    (name : Text) (names : List Text) → Among name (sorted_set names) ↔ Among name names
unfolding sorted_set
Among-sorted_set name names =
    let sorted = Among-sort text_leb name (distinct text_eq names) in
    let kept = Among-distinct text_eq text_eq_sound name names in
    (λ m. kept.0 (sorted.0 m), λ m. sorted.1 (kept.1 m))
