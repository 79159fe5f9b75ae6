-- ===== src/Pagination/Follows.antt =====
-- The rows that follow a position in a listing.
use bonerepo.Prelude.{
  ℕ, ◌≡◌, refl, ◌∙◌, sym, subst, true, false, some, List, [], ◌∷◌, ◌++◌, keep, Among, here, there,
  arith,
}
use bonerepo.Store.Table.{Tenant}
use bonerepo.Pagination.{Position, precedes, follows, position}
use bonerepo.Pagination.Order.{precedes_irrefl, precedes_asym, Descending}

module _ {R : Type 0} ⦃t : Tenant R⦄ (at : R → ℕ) where
  keep_none :
      (p : Position) (xs ys : List R)
      → ((x : R) → Among x xs → precedes (position at x) p ≡ false)
      → keep (λ r. follows (some p) (position at r)) (xs ++ ys)
        ≡ keep (λ r. follows (some p) (position at r)) ys
  unfolding keep follows
  keep_none p [] ys h = refl
  keep_none p (x ∷ xs) ys h =
      ground (arith, h x (here refl), keep_none p xs ys (λ y m. h y (there m)))

  keep_every :
      (p : Position) (ys : List R)
      → ((y : R) → Among y ys → precedes (position at y) p ≡ true)
      → keep (λ r. follows (some p) (position at r)) ys ≡ ys
  unfolding keep follows
  keep_every p [] h = refl
  keep_every p (y ∷ ys) h = ground (arith, h y (here refl), keep_every p ys (λ z m. h z (there m)))

  older :
      (xs : List R) (l : R) (ys : List R)
      → Descending at (xs ++ l ∷ ys)
      → (x : R) → Among x xs
      → precedes (position at l) (position at x) ≡ true
  older [] l ys d x m = elim m [ ]
  older (z ∷ xs) l ys d x (here e) =
      subst (λ r. precedes (position at l) (position at r) ≡ true) (sym e) (d.0 l (middle xs))
    where
      middle : (zs : List R) → Among l (zs ++ l ∷ ys)
      middle [] = here refl
      middle (w ∷ zs) = there (middle zs)
  older (z ∷ xs) l ys d x (there m) = older xs l ys d.1 x m

  after_suffix :
      (xs : List R) (l : R) (ys : List R) → Descending at (xs ++ l ∷ ys) → Descending at (l ∷ ys)
  after_suffix [] l ys d = d
  after_suffix (z ∷ xs) l ys d = after_suffix xs l ys d.1

  -- The rows that follow a row's position are those behind it.
  pub keep-follows :
      (xs : List R) (l : R) (ys : List R)
      → Descending at (xs ++ l ∷ ys)
      → keep (λ r. follows (some (position at l)) (position at r)) (xs ++ l ∷ ys) ≡ ys
  unfolding keep follows
  keep-follows xs l ys d =
      keep_none (position at l) xs (l ∷ ys)
        (λ x m. precedes_asym (position at l) (position at x) (older xs l ys d x m))
      ∙ rw (precedes_irrefl (position at l))
          (keep_every (position at l) ys (after_suffix xs l ys d).0)
