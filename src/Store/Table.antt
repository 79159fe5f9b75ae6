-- ===== src/Store/Table.antt =====
-- A table under the policy `tenant_isolation` of migrations/versions/0003_row_level_security.py:
-- a statement sees and writes the rows of the session's organisation, and none where no
-- organisation is set.
pub mod Outside
use bonerepo.Prelude.{
  ℕ, Bool, true, false, not, ◌&&◌, Option, none, some, List, [], ◌∷◌, ◌++◌, ◌==◌, leb,
  if◌then◌else◌, keep, first,
}

-- Whether a number fits an int4: where one does not, PostgreSQL or the driver raises.
unfoldable pub is_int4 : ℕ → Bool
is_int4 n = leb n 2147483647

-- What every row of a tenant table has.
pub record Tenant (R : Type 0) : Type 0 where
  pub org_of : R → ℕ
  pub id_of : R → ℕ

-- ORG_PREDICATE: `organization_id = NULLIF(current_setting(...), '')::uuid`, where NULL is no match
unfoldable pub org_matches : Option ℕ → ℕ → Bool
org_matches none owner = false
org_matches (some org) owner = owner == org

module _ {R : Type 0} ⦃t : Tenant R⦄ where
  unfoldable pub visible : Option ℕ → R → Bool
  unfolding org_matches
  visible org r = org_matches org (t.org_of r)

  -- SELECT ... WHERE p, in the order of insertion
  unfoldable pub select : Option ℕ → (R → Bool) → List R → List R
  unfolding keep
  select org p = keep (λ r. visible org r && p r)

  -- SELECT ... WHERE p, the first row
  unfoldable pub select_first : Option ℕ → (R → Bool) → List R → Option R
  unfolding first
  select_first org p = first (λ r. visible org r && p r)

  -- SELECT ... WHERE id = :id
  unfoldable pub by_id : Option ℕ → ℕ → List R → Option R
  unfolding select_first
  by_id org id = select_first org (λ r. t.id_of r == id)

  -- UPDATE ... SET f WHERE p
  unfoldable pub update_where : Option ℕ → (R → Bool) → (R → R) → List R → List R
  update_where org p f [] = []
  update_where org p f (r ∷ rows) =
      (if visible org r && p r then f r else r) ∷ update_where org p f rows

  -- DELETE ... WHERE p
  unfoldable pub delete_where : Option ℕ → (R → Bool) → List R → List R
  unfolding keep
  delete_where org p = keep (λ r. not (visible org r && p r))

  -- INSERT, when WITH CHECK has passed
  unfoldable pub insert_row : R → List R → List R
  insert_row r rows = rows ++ r ∷ []

  -- A unique index spans every organisation: it does not go by the policy.
  unfoldable pub taken : (R → Bool) → List R → Bool
  unfolding first
  taken p rows = elim (first p rows) [ none ↦ false | some _ ↦ true ]
