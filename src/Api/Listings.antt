-- ===== src/Api/Listings.antt =====
-- The listings of routers/projects.py and pools.py.
pub mod Complete
use bonerepo.Store.{
  project_tenant, pool_tenant, ◌>>=◌, World, Exec, Failure, plimsoll, pure, lift, session_for_org,
}
use bonerepo.Prelude.{ℕ, suc, Option, none, some, List, Result, err, if◌then◌else◌}
use bonerepo.Prelude.Texts.{Text}
use bonerepo.Contracts.Errors.{permission_denied}
use bonerepo.Tokens.{AccessClaims}
use bonerepo.Permissions.{Permission, project_read, holds}
use bonerepo.Store.Rows.{Project, GeneratorPool}
use bonerepo.Pagination.{Codec, Page, Position, position, position_from, page_of}
use bonerepo.Repositories.Projects as projects
use bonerepo.Repositories.Pools as pools

module _ (c : Codec) where
  unfoldable pub projects_from : ℕ → Result Failure (Option Position) → Exec (Page Project)
  projects_from limit start = do
    after ← lift start
    rows ← projects.list_page (suc limit) after
    pure (page_of c (position (λ (r : Project). r.created_at)) (λ row. row) rows limit)

  unfoldable pub list_projects : ℕ → Option Text → Exec (Page Project)
  unfolding projects_from
  list_projects limit cursor = projects_from limit (position_from c cursor)

  -- `_response` raises at a `config` that is the JSON null; no pool is stored with one, since the
  -- update that writes it is rolled back by its own response.
  unfoldable pub pools_from : ℕ → Result Failure (Option Position) → Exec (Page GeneratorPool)
  pools_from limit start = do
    after ← lift start
    rows ← pools.list_page (suc limit) after
    pure (page_of c (position (λ (r : GeneratorPool). r.created_at)) (λ row. row) rows limit)

  unfoldable pub list_pools : ℕ → Option Text → Exec (Page GeneratorPool)
  unfolding pools_from
  list_pools limit cursor = pools_from limit (position_from c cursor)

-- The guard and the transaction of a listing.
unfoldable pub handle_listing :
    {A : Type 0} → AccessClaims → Exec (Page A) → World → Result Failure (Page A) × World
handle_listing principal block w =
    if holds principal.role project_read
    then session_for_org (some principal.organization_id) block w
    else (err (plimsoll (record { code = permission_denied; details = none })), w)
