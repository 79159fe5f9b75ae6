-- ===== src/Api.antt =====
-- The endpoints of routers/projects.py, pools.py, performance_tests.py and target_policy.py on one
-- resource, with dependencies.py and the guard of security/permissions.py. A body is one that its
-- contract accepted, and a response is the row that `_response` reads.
pub mod Keeps
pub mod Isolation
pub mod Atomic
pub mod Listings
pub mod ReadOnly
pub mod Versions
pub mod Reads
pub mod Runs
mod Tests
use bonerepo.Store.{
  ◌>>◌, ◌>>=◌, World, Exec, Failure, plimsoll, unexpected, pure, unless, or_raise, session_for_org,
}
use bonerepo.Prelude.{ℕ, Option, none, some, List, [], err, Result, not, if◌then◌else◌}
use bonerepo.Prelude.Texts.{Text, codes, text_eq}
use bonerepo.Contracts.Errors.{permission_denied}
use bonerepo.Contracts.Projects.{ProjectCreate, ProjectUpdate}
use bonerepo.Contracts.Pools.{PoolCreate, PoolUpdate}
use bonerepo.Contracts.Tests.{TestCreate, TestUpdate}
use bonerepo.Tokens.{AccessClaims}
use bonerepo.Permissions.{
  Permission, project_read, project_write, test_read, test_write, admin_system, holds,
}
use bonerepo.Store.Rows.{Project, GeneratorPool, Workload, TargetPolicy}
use bonerepo.Services.Projects as projects
use bonerepo.Services.Pools as pools
use bonerepo.Services.PerformanceTests as tests
use bonerepo.Services.TargetPolicies as policies

pub data Request : Type 0 where
  create_project : ProjectCreate → Request
  get_project : ℕ → Request
  update_project : ℕ → ProjectUpdate → Request
  delete_project : ℕ → Request
  create_pool : PoolCreate → Request
  get_pool : ℕ → Request
  update_pool : ℕ → PoolUpdate → Request
  delete_pool : ℕ → Request
  create_test : ℕ → TestCreate → Request
  get_test : ℕ → Request
  update_test : ℕ → TestUpdate → Request
  delete_test : ℕ → Request
  get_target_policy : Request
  replace_target_policy : List Text → Request

pub data Reply : Type 0 where
  project : Project → Reply
  -- with the capacity
  pool : GeneratorPool → Reply
  test : tests.TestDocument → Workload → Reply
  -- TargetPolicyResponse: version, allowlist, created_at
  target_policy : ℕ → List Text → Option ℕ → Reply
  no_content : Reply

-- `dependencies=[Depends(requires(...))]` of each endpoint
unfoldable pub permission_of : Request → Permission
permission_of (create_project body) = project_write
permission_of (get_project id) = project_read
permission_of (update_project id body) = project_write
permission_of (delete_project id) = project_write
permission_of (create_pool body) = admin_system
permission_of (get_pool id) = project_read
permission_of (update_pool id body) = admin_system
permission_of (delete_pool id) = admin_system
permission_of (create_test project_id body) = test_write
permission_of (get_test id) = test_read
permission_of (update_test id body) = test_write
permission_of (delete_test id) = test_write
permission_of get_target_policy = project_read
permission_of (replace_target_policy allowlist) = admin_system

-- `_response(None)` is an AttributeError.
unfoldable pub updated : {A : Type 0} → Option A → Exec A
updated row = or_raise unexpected row

-- `_response` of a test: WorkloadSpec.model_validate(row.configuration)
unfoldable pub test_response : tests.TestDocument → Exec Reply
test_response document = do
  configuration ← or_raise unexpected document.row.configuration
  pure (test document configuration)

-- `_response` of a pool: `config` is a dict, and a ValidationError where the row has the JSON null.
unfoldable pub pool_response : GeneratorPool → Exec Reply
pool_response row = do unless (not (text_eq row.config (codes "null"))) unexpected; pure (pool row)

unfoldable pub policy_response : Option TargetPolicy → Reply
policy_response none = target_policy 0 [] none
policy_response (some row) = target_policy row.version row.allowlist (some row.created_at)

unfoldable pub endpoint : AccessClaims → Request → Exec Reply
endpoint principal (create_project body) = do
  row ← projects.create principal body
  pure (project row)
endpoint principal (get_project id) = do row ← projects.require id; pure (project row)
endpoint principal (update_project id body) = do
  found ← projects.update principal id body
  row ← updated found
  pure (project row)
endpoint principal (delete_project id) = do projects.archive principal id; pure no_content
endpoint principal (create_pool body) = do row ← pools.create principal body; pool_response row
endpoint principal (get_pool id) = do row ← pools.require id; pool_response row
endpoint principal (update_pool id body) = do
  found ← pools.update principal id body
  row ← updated found
  pool_response row
endpoint principal (delete_pool id) = do pools.archive principal id; pure no_content
endpoint principal (create_test project_id body) = do
  document ← tests.create principal project_id body
  test_response document
endpoint principal (get_test id) = do document ← tests.require id; test_response document
endpoint principal (update_test id body) = do
  document ← tests.update principal id body
  test_response document
endpoint principal (delete_test id) = do tests.archive principal id; pure no_content
endpoint principal get_target_policy = do row ← policies.current_policy; pure (policy_response row)
endpoint principal (replace_target_policy allowlist) = do
  row ← policies.replace principal allowlist
  pure (policy_response (some row))

-- The guard runs before the endpoint, which has the transaction of `tenant_session`: the
-- organisation is the token's.
unfoldable pub handle : AccessClaims → Request → World → Result Failure Reply × World
unfolding permission_of endpoint
handle principal request w =
    if holds principal.role (permission_of request)
    then session_for_org (some principal.organization_id) (endpoint principal request) w
    else (err (plimsoll (record { code = permission_denied; details = none })), w)
