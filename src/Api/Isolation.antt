-- ===== src/Api/Isolation.antt =====
-- What a request can touch.
use bonerepo.Prelude.{ℕ, Option, some, true, false, Bool, err, if◌then◌else◌}
use bonerepo.Tokens.{AccessClaims}
use bonerepo.Permissions.{holds}
use bonerepo.Store.{Db, World, Failure, session_for_org}
use bonerepo.Store.Confined.{
  Inside, Confined, SameOutside, SameOutside-refl, session_for_org-SameOutside,
}
use bonerepo.Repositories.Keeps.{RepositoriesKeep}
use bonerepo.Repositories.Confined.Projects.{projects_rules}
use bonerepo.Repositories.Confined.Pools.{pools_rules}
use bonerepo.Repositories.Confined.Tokens.{tokens_rules}
use bonerepo.Repositories.Confined.PerformanceTests.{tests_rules}
use bonerepo.Api.Keeps.{endpoint-Keeps}
use bonerepo.Api.{Request, endpoint, permission_of, handle}

repositories-Inside : (o : ℕ) (s : Option ℕ) (d : Db) → RepositoriesKeep (Inside o s d)
repositories-Inside o s d = record {
  insert_audit = search projects_rules;
  insert_project = search projects_rules;
  get_project = search projects_rules;
  update_project = search projects_rules;
  archive_project = search projects_rules;
  insert_pool = search pools_rules;
  get_pool = search pools_rules;
  update_pool = search pools_rules;
  archive_pool = search pools_rules;
  current = search tokens_rules;
  insert_next_version = search tokens_rules;
  insert_test = search tests_rules;
  get_test = search tests_rules;
  update_test = search tests_rules;
  archive_test = search tests_rules;
  replace_plans = search tests_rules;
  replace_rules = search tests_rules;
  plans_for = search tests_rules;
  rules_for = search tests_rules;
}

pub endpoint-Confined : (p : AccessClaims) (r : Request) → Confined p.organization_id (endpoint p r)
endpoint-Confined p r s d = endpoint-Keeps _ (repositories-Inside p.organization_id s d) p r

-- Whatever a principal requests, in every table the rows that do not belong to the organisation of
-- the access token are the same after the request as before it, in the same order.
pub handle-SameOutside :
    (p : AccessClaims) (r : Request) (w : World)
    → SameOutside (some p.organization_id) (handle p r w).1.db w.db
unfolding handle
handle-SameOutside p r w = guarded (holds p.role (permission_of r)) _
  where
    guarded :
        (b : Bool) (e : Failure)
        → SameOutside
            (some p.organization_id)
            (if b
              then session_for_org (some p.organization_id) (endpoint p r) w
              else (err e, w)).1.db
            w.db
    guarded true e =
        session_for_org-SameOutside p.organization_id (endpoint p r) w (endpoint-Confined p r)
    guarded false e = SameOutside-refl (some p.organization_id) w.db
