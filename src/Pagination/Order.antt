-- ===== src/Pagination/Order.antt =====
-- The order of a listing: strictly descending, if no two rows have one identifier.
use bonerepo.Prelude.{
  ℕ, ◌≡◌, ◌⊎◌, inl, inr, refl, sym, subst, Bool, true, false, Option, List, [], ◌∷◌, keep, Among,
  here, there, arith, if◌then◌else◌,
}
use bonerepo.Prelude.Sorting.{place, sort, Among-place, Among-sort}
use bonerepo.Store.Table.{Tenant, select}
use bonerepo.Pagination.{Position, precedes, position, newer, listing}

pub precedes_trans :
    (p q r : Position) → precedes p q ≡ true → precedes q r ≡ true → precedes p r ≡ true
unfolding precedes
precedes_trans p q r h k = ground arith

pub precedes_irrefl : (p : Position) → precedes p p ≡ false
unfolding precedes
precedes_irrefl p = ground arith

precedes_total : (p q : Position) → ¬ (p.id ≡ q.id) → precedes p q ≡ false → precedes q p ≡ true
unfolding precedes
precedes_total p q apart h = ground arith

pub precedes_asym : (p q : Position) → precedes p q ≡ true → precedes q p ≡ false
unfolding precedes
precedes_asym p q h = ground arith

module _ {R : Type 0} ⦃t : Tenant R⦄ where
  -- No two rows have one identifier.
  abbrev pub DistinctIds : List R → Type 0
  DistinctIds [] = Unit
  DistinctIds (r ∷ rows) = ((s : R) → Among s rows → ¬ (t.id_of r ≡ t.id_of s)) × DistinctIds rows

  kept_of :
      (b : Bool) (x : R) (rest rows : List R) (r : R)
      → Among r (if b then x ∷ rest else rest)
      → (Among r rest → Among r rows)
      → Among r (x ∷ rows)
  kept_of true x rest rows r (here e) inside = here e
  kept_of true x rest rows r (there m) inside = there (inside m)
  kept_of false x rest rows r m inside = there (inside m)

  keep-Among : (p : R → Bool) (rows : List R) (r : R) → Among r (keep p rows) → Among r rows
  unfolding keep
  keep-Among p [] r m = m
  keep-Among p (x ∷ rows) r m = kept_of (p x) x (keep p rows) rows r m (keep-Among p rows r)

  kept-DistinctIds :
      (b : Bool) (x : R) (rest : List R)
      → ((s : R) → Among s rest → ¬ (t.id_of x ≡ t.id_of s))
      → DistinctIds rest
      → DistinctIds (if b then x ∷ rest else rest)
  kept-DistinctIds true x rest apart d = (apart, d)
  kept-DistinctIds false x rest apart d = d

  keep-DistinctIds : (p : R → Bool) (rows : List R) → DistinctIds rows → DistinctIds (keep p rows)
  unfolding keep
  keep-DistinctIds p [] d = tt
  keep-DistinctIds p (x ∷ rows) d =
      kept-DistinctIds (p x) x (keep p rows) (λ s m. d.0 s (keep-Among p rows s m))
        (keep-DistinctIds p rows d.1)

module _ {R : Type 0} ⦃t : Tenant R⦄ (at : R → ℕ) where
  -- Each row comes after the rows that are newer.
  abbrev pub Descending : List R → Type 0
  Descending [] = Unit
  Descending (r ∷ rows) =
      ((s : R) → Among s rows → precedes (position at s) (position at r) ≡ true) × Descending rows

  placed-Descending :
      (b : Bool) (a x : R) (xs rest : List R)
      → newer at a x ≡ b
      → (b ≡ false → newer at x a ≡ true)
      → Descending (x ∷ xs)
      → ((s : R) → Among s rest → (s ≡ a) ⊎ Among s xs)
      → Descending rest
      → Descending (if b then a ∷ x ∷ xs else x ∷ rest)
  unfolding newer
  placed-Descending true a x xs rest e other d inside dr = (
    λ s m. elim m [
      | here same ↦ subst (λ r. precedes (position at r) (position at a) ≡ true) (sym same) e
      | there n ↦ precedes_trans (position at s) (position at x) (position at a) (d.0 s n) e
    ],
    d,
  )
  placed-Descending false a x xs rest e other d inside dr = (
    λ s m. elim (inside s m) [
      | inl same ↦
          subst (λ r. precedes (position at r) (position at x) ≡ true) (sym same) (other refl)
      | inr n ↦ d.0 s n
    ],
    dr,
  )

  place-Descending :
      (a : R) (ys : List R)
      → Descending ys
      → ((s : R) → Among s ys → ¬ (t.id_of a ≡ t.id_of s))
      → Descending (place (newer at) a ys)
  unfolding place newer position
  place-Descending a [] d apart = ((λ s m. elim m [ ]), tt)
  place-Descending a (x ∷ xs) d apart =
      placed-Descending (newer at a x) a x xs (place (newer at) a xs) refl
        (λ e.
          precedes_total (position at x) (position at a) (λ same. apart x (here refl) (sym same)) e)
        d (λ s. (Among-place (newer at) a s xs).0)
        (place-Descending a xs d.1 (λ s m. apart s (there m)))

  sort-Descending : (rows : List R) → DistinctIds rows → Descending (sort (newer at) rows)
  unfolding sort
  sort-Descending [] d = tt
  sort-Descending (x ∷ rows) d =
      place-Descending x (sort (newer at) rows) (sort-Descending rows d.1)
        (λ s m. d.0 s ((Among-sort (newer at) s rows).0 m))

  pub listing-Descending :
      (org : Option ℕ) (p : R → Bool) (rows : List R)
      → DistinctIds rows
      → Descending (listing at org p rows)
  unfolding listing select
  listing-Descending org p rows d = sort-Descending _ (keep-DistinctIds _ rows d)
