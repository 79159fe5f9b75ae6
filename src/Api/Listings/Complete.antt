-- ===== src/Api/Listings/Complete.antt =====
-- A client that follows the cursors of a listing endpoint.
use mathlib.Core.Path.{fun_ext}
use bonerepo.Store.{
  project_tenant, pool_tenant, ◌>>=◌, World, Failure, pure, lift, session_for_org, settle,
}
use bonerepo.Prelude.{
  ℕ, suc, ◌≡◌, refl, ap, ◌∙◌, true, Option, none, some, List, Result, ok, err, length, map,
}
use bonerepo.Prelude.Texts.{Text}
use bonerepo.Tokens.{AccessClaims}
use bonerepo.Permissions.{project_read, holds}
use bonerepo.Store.Rows.{Project, GeneratorPool}
use bonerepo.Pagination.{
  Codec, Page, Position, position_from, listing, page_at, page_after, get_page,
}
use bonerepo.Pagination.Order.{DistinctIds}
use bonerepo.Pagination.Walk.{walk, walk-listing}
use bonerepo.Repositories.Projects as projects
use bonerepo.Repositories.Pools as pools
use bonerepo.Api.Listings.{projects_from, pools_from, list_projects, list_pools, handle_listing}

-- The page of a response.
unfoldable pub served : {A : Type 0} → Result Failure (Page A) × World → Option (Page A)
served (ok page, w) = some page
served (err e, w) = none

-- The rows that an organisation sees, in the order of a listing.
abbrev pub projects_listed : ℕ → World → List Project
projects_listed org w = listing (λ (r : Project). r.created_at) (some org) (λ r. true) w.db.projects

abbrev pub pools_listed : ℕ → World → List GeneratorPool
pools_listed org w = listing (λ (r : GeneratorPool). r.created_at) (some org) (λ r. true) w.db.pools

module _ (c : Codec) (principal : AccessClaims) (w : World)
    (allowed : holds principal.role project_read ≡ true) where
  projects-page_at :
      (limit : ℕ) (start : Result Failure (Option Position))
      → served (session_for_org (some principal.organization_id) (projects_from c limit start) w)
        ≡ page_at
            (λ (r : Project). r.created_at)
            c
            (λ row. row)
            (some principal.organization_id)
            (λ r. true)
            limit
            w.db.projects
            start
  unfolding session_for_org settle projects_from ◌>>=◌ lift pure projects.list_page page_at
      page_after served
  projects-page_at limit (err e) = refl
  projects-page_at limit (ok after) = refl

  projects-get_page :
      (limit : ℕ)
      → (λ (cursor : Option Text).
          served (handle_listing principal (list_projects c limit cursor) w))
        ≡ get_page
            (λ (r : Project). r.created_at)
            c
            (λ row. row)
            (some principal.organization_id)
            (λ r. true)
            limit
            w.db.projects
  unfolding handle_listing get_page list_projects
  projects-get_page limit =
      fun_ext (λ cursor. rw allowed (projects-page_at limit (position_from c cursor)))

  pools-page_at :
      (limit : ℕ) (start : Result Failure (Option Position))
      → served (session_for_org (some principal.organization_id) (pools_from c limit start) w)
        ≡ page_at
            (λ (r : GeneratorPool). r.created_at)
            c
            (λ row. row)
            (some principal.organization_id)
            (λ r. true)
            limit
            w.db.pools
            start
  unfolding session_for_org settle pools_from ◌>>=◌ lift pure pools.list_page page_at page_after
      served
  pools-page_at limit (err e) = refl
  pools-page_at limit (ok after) = refl

  pools-get_page :
      (limit : ℕ)
      → (λ (cursor : Option Text). served (handle_listing principal (list_pools c limit cursor) w))
        ≡ get_page
            (λ (r : GeneratorPool). r.created_at)
            c
            (λ row. row)
            (some principal.organization_id)
            (λ r. true)
            limit
            w.db.pools
  unfolding handle_listing get_page list_pools
  pools-get_page limit =
      fun_ext (λ cursor. rw allowed (pools-page_at limit (position_from c cursor)))

  -- A principal who may read projects, and who asks an endpoint for its first page and then follows
  -- the cursors, is given each project and each pool of its organisation once, the newest first, by
  -- at most one request more than there are, whatever the limit above zero. Rows of one table have
  -- distinct identifiers, and the tables do not change in between.
  pub list_complete :
      (m : ℕ)
      → DistinctIds w.db.projects
      → DistinctIds w.db.pools
      → (walk
            (λ cursor. served (handle_listing principal (list_projects c (suc m) cursor) w))
            (suc (length (projects_listed principal.organization_id w)))
            none
          ≡ some (map (λ row. row) (projects_listed principal.organization_id w)))
        × (walk
              (λ cursor. served (handle_listing principal (list_pools c (suc m) cursor) w))
              (suc (length (pools_listed principal.organization_id w)))
              none
            ≡ some (map (λ row. row) (pools_listed principal.organization_id w)))
  list_complete m d e = (
    ap (λ get. walk get (suc (length (projects_listed principal.organization_id w))) none)
          (projects-get_page (suc m))
        ∙ walk-listing (λ (r : Project). r.created_at) c (λ row. row)
            (some principal.organization_id) (λ r. true) w.db.projects m d,
    ap (λ get. walk get (suc (length (pools_listed principal.organization_id w))) none)
          (pools-get_page (suc m))
        ∙ walk-listing (λ (r : GeneratorPool). r.created_at) c (λ row. row)
            (some principal.organization_id) (λ r. true) w.db.pools m e,
  )
