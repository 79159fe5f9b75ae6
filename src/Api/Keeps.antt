-- ===== src/Api/Keeps.antt =====
-- Every request keeps an invariant of the tables that the repositories keep.
use bonerepo.Prelude.{Option}
use bonerepo.Tokens.{AccessClaims}
use bonerepo.Store.{World}
use bonerepo.Store.Rows.{GeneratorPool}
use bonerepo.Store.Keeps.{Keeps, keeps_rules}
use bonerepo.Repositories.Keeps.{RepositoriesKeep}
use bonerepo.Services.PerformanceTests.{TestDocument}
use bonerepo.Services.Keeps.Simple.{services_rules}
use bonerepo.Services.Keeps.PerformanceTests.{test_services_rules}
use bonerepo.Api.{
  Request, create_project, get_project, update_project, delete_project, create_pool, get_pool,
  update_pool, delete_pool, create_test, get_test, update_test, delete_test, get_target_policy,
  replace_target_policy, updated, test_response, pool_response, endpoint,
}

module _ (P : World → Type 0) (k : RepositoriesKeep P) where
  updated-Keeps : {A : Type 0} (found : Option A) → Keeps P (updated found)
  unfolding updated
  updated-Keeps found = search keeps_rules

  response-Keeps : (t : TestDocument) → Keeps P (test_response t)
  unfolding test_response
  response-Keeps t = search keeps_rules

  pool_response-Keeps : (row : GeneratorPool) → Keeps P (pool_response row)
  unfolding pool_response
  pool_response-Keeps row = search keeps_rules

  ruleset endpoint_rules = (
    keeps_rules, services_rules, test_services_rules, updated-Keeps, response-Keeps,
    pool_response-Keeps,
  )

  pub endpoint-Keeps : (p : AccessClaims) (r : Request) → Keeps P (endpoint p r)
  unfolding endpoint
  endpoint-Keeps p (create_project body) = search endpoint_rules
  endpoint-Keeps p (get_project id) = search endpoint_rules
  endpoint-Keeps p (update_project id body) = search endpoint_rules
  endpoint-Keeps p (delete_project id) = search endpoint_rules
  endpoint-Keeps p (create_pool body) = search endpoint_rules
  endpoint-Keeps p (get_pool id) = search endpoint_rules
  endpoint-Keeps p (update_pool id body) = search endpoint_rules
  endpoint-Keeps p (delete_pool id) = search endpoint_rules
  endpoint-Keeps p (create_test project_id body) = search endpoint_rules
  endpoint-Keeps p (get_test id) = search endpoint_rules
  endpoint-Keeps p (update_test id body) = search endpoint_rules
  endpoint-Keeps p (delete_test id) = search endpoint_rules
  endpoint-Keeps p get_target_policy = search endpoint_rules
  endpoint-Keeps p (replace_target_policy allowlist) = search endpoint_rules
