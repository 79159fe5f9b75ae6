-- ===== src/Store/Table/Outside.antt =====
-- The rows of the other organisations, which no statement of a session changes.
use bonerepo.Prelude.{
  ℕ, Bool, true, not, ◌≡◌, refl, Option, List, [], ◌∷◌, ◌++◌, keep, append-nil, arith,
}
use bonerepo.Store.Table.{Tenant, visible, update_where, delete_where, insert_row}

module _ {R : Type 0} ⦃t : Tenant R⦄ where
  -- The rows that a session of the organisation does not see.
  unfoldable pub outside : Option ℕ → List R → List R
  unfolding keep visible
  outside org = keep (λ r. not (visible org r))

  outside-append :
      (org : Option ℕ) (xs ys : List R) → outside org (xs ++ ys) ≡ outside org xs ++ outside org ys
  unfolding outside
  outside-append org [] ys = refl
  outside-append org (x ∷ xs) ys = ground (arith, outside-append org xs ys)

  outside-seen : (org : Option ℕ) (r : R) → visible org r ≡ true → outside org (r ∷ []) ≡ []
  unfolding outside
  outside-seen org r seen = rw (seen, keep)

  pub outside-insert_row :
      (org : Option ℕ) (r : R) (rows : List R)
      → visible org r ≡ true
      → outside org (insert_row r rows) ≡ outside org rows
  unfolding insert_row
  outside-insert_row org r rows seen =
      rw outside-append (rw (outside-seen org r seen) (append-nil (outside org rows)))

  pub outside-update_where :
      (org : Option ℕ) (p : R → Bool) (f : R → R) (rows : List R)
      → ((r : R) → t.org_of (f r) ≡ t.org_of r)
      → outside org (update_where org p f rows) ≡ outside org rows
  unfolding outside update_where
  outside-update_where org p f [] same = refl
  outside-update_where org p f (r ∷ rows) same =
      ground (arith, same r, outside-update_where org p f rows same)

  pub outside-delete_where :
      (org : Option ℕ) (p : R → Bool) (rows : List R)
      → outside org (delete_where org p rows) ≡ outside org rows
  unfolding outside delete_where
  outside-delete_where org p [] = refl
  outside-delete_where org p (r ∷ rows) = ground (arith, outside-delete_where org p rows)
