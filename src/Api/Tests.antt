-- ===== src/Api/Tests.antt =====
-- Two organisations, and the theorems on requests at them.
use bonerepo.Prelude.{
  ℕ, ◌≡◌, refl, ap, ◌<◌, Option, none, some, List, [], ◌∷◌, ok, err, Among, here, there, arith,
}
use bonerepo.Prelude.Texts.{Text, codes}
use bonerepo.Contracts.Errors.{conflict, expected_version}
use bonerepo.Contracts.Updates.{absent, null, given}
use bonerepo.Contracts.Pools.{PoolUpdate}
use bonerepo.Contracts.Tests.{TestUpdate}
use bonerepo.Tokens.{AccessClaims}
use bonerepo.Store.Rows.{Project, GeneratorPool, Workload, PerformanceTest, active, draft, docker}
use bonerepo.Store.{Db, World, plimsoll, integrity, unexpected}
use bonerepo.Store.Confined.{SameOutside}
use bonerepo.Api.{
  Request, delete_project, update_pool, update_test, delete_test, get_test, get_target_policy,
  replace_target_policy, target_policy, no_content, handle,
}
use bonerepo.Api.Runs.{runs}
use bonerepo.Api.Isolation.{handle-SameOutside}
use bonerepo.Api.Atomic.{handle-org}
use bonerepo.Api.ReadOnly.{handle-read_only}
use bonerepo.Api.Reads.Answers.{handle-read_updated}
use bonerepo.Api.Reads.History.{handle-read_policy}
use bonerepo.Api.Versions.Keyed.{WellKept}
use bonerepo.Api.Versions.Requests.{run}
use bonerepo.Api.Versions.Updates.{handle-no_lost_update}

abbrev project_of : ℕ → ℕ → Project
project_of id org = record {
  id = id;
  organization_id = org;
  name = codes "Shop";
  project_key = codes "SHOP";
  description = none;
  environment = none;
  status = active;
  tags = [];
  created_by = none;
  created_at = 5;
  updated_at = 5;
}

abbrev pool_row : GeneratorPool
pool_row = record {
  id = 3;
  organization_id = 1;
  name = codes "pool";
  runtime = docker;
  config = codes "{}";
  region = none;
  max_generators = 4;
  max_vus_per_generator = 50;
  status = active;
  created_at = 5;
  updated_at = 5;
}

abbrev workload : Workload
workload = record {
  virtual_users = 10;
  duration_seconds = 60;
  ramp_up_seconds = 5;
  generator_pool_id = 3;
}

abbrev document_row : PerformanceTest
document_row = record {
  id = 7;
  organization_id = 1;
  project_id = 1;
  name = codes "Checkout";
  description = none;
  status = draft;
  configuration = some workload;
  version = 4;
  tags = [];
  created_by = none;
  created_at = 6;
  updated_at = 6;
}

abbrev tables : Db
tables = record {
  users = [];
  projects = project_of 1 1 ∷ project_of 2 2 ∷ [];
  credentials = [];
  script_repos = [];
  performance_tests = document_row ∷ [];
  test_plans = [];
  sla_rules = [];
  pools = pool_row ∷ [];
  runs = [];
  run_generators = [];
  audit_logs = [];
  target_policies = [];
  families = [];
  history = [];
}

abbrev start : World
start = record { db = tables; org = none; session_org = none; now = 9; drawn = 10 }

abbrev admin : AccessClaims
admin = record { user_id = 20; organization_id = 1; role = codes "ORG_ADMIN" }

abbrev viewer : AccessClaims
viewer = record { user_id = 21; organization_id = 1; role = codes "VIEWER" }

abbrev rename : TestUpdate
rename = record {
  version = 4;
  name = given (codes "Basket");
  description = absent;
  configuration = absent;
  plans = absent;
  sla_rules = absent;
  tags = absent;
}

abbrev clear : TestUpdate
clear = record rename { name = absent; description = null }

handle-SameOutside_example :
    SameOutside (some 1) (handle admin (delete_project 1) start).1.db tables
handle-SameOutside_example = handle-SameOutside admin (delete_project 1) start

handle-org_example : (handle admin (delete_project 1) start).1.org ≡ none
handle-org_example = handle-org admin (delete_project 1) start

-- The project of the other organisation is not found.
handle-read_only_example : (handle viewer (delete_project 1) start).1.db ≡ tables
handle-read_only_example = handle-read_only viewer (delete_project 1) start (λ e. cc)

start-WellKept : WellKept start.drawn start.db.performance_tests
start-WellKept = record { keyed = ((λ s m. elim m [ ]), tt); fresh = only }
  where
    only : (r : PerformanceTest) → Among r (document_row ∷ []) → r.id < 10
    only r (here e) = omega (arith, ap (λ x. x.id) e)
    only r (there m) = elim m [ ]

abbrev between : List (AccessClaims × Request)
between = (admin, delete_test 7) ∷ (admin, update_test 7 (record rename { version = 5 })) ∷ []

handle-no_lost_update_example : ¬ (
    (handle admin
      (update_test 7 clear)
      (run between (handle admin (update_test 7 rename) start).1)).0
    ≡ ok no_content)
unfolding runs
handle-no_lost_update_example =
    handle-no_lost_update admin admin 7 rename clear between start _ no_content start-WellKept refl
      refl

handle-read_updated_example :
    (handle viewer (get_test 7) (handle admin (update_test 7 rename) start).1).0
    ≡ (handle admin (update_test 7 rename) start).0
unfolding runs
handle-read_updated_example =
    handle-read_updated admin viewer 7 rename start _ start-WellKept refl refl refl

abbrev allowlist : List Text
allowlist = codes "shop.example.com" ∷ codes "10.0.0.0/8" ∷ []

handle-read_policy_example :
    ((at : Option ℕ) × (target_policy 1 allowlist (some 9) ≡ target_policy 1 allowlist at))
    × ((handle viewer get_target_policy (handle admin (replace_target_policy allowlist) start).1).0
        ≡ ok (target_policy 1 allowlist (some 9)))
unfolding runs
handle-read_policy_example =
    handle-read_policy admin viewer allowlist start (target_policy 1 allowlist (some 9)) refl refl
      refl

abbrev null_config : PoolUpdate
null_config = record {
  name = absent;
  config = null;
  region = absent;
  max_generators = absent;
  max_vus_per_generator = absent;
}

-- The second update at version 4 is answered 409 with the version that it expected.
second_is_conflict :
    (handle admin (update_test 7 clear) (handle admin (update_test 7 rename) start).1).0
    ≡ err (plimsoll (record { code = conflict; details = some (expected_version 4) }))
unfolding runs
second_is_conflict = refl

-- An explicit null for the name is an IntegrityError that no handler turns into a 4xx.
null_name_is_integrity :
    (handle admin (update_test 7 (record rename { name = null })) start).0 ≡ err integrity
unfolding runs
null_name_is_integrity = refl

-- An explicit null for the configuration of a pool is written, then refused by the response.
null_config_is_rolled_back :
    handle admin (update_pool 3 null_config) start ≡ (err unexpected, record start { drawn = 11 })
unfolding runs
null_config_is_rolled_back = refl

-- The next version of a test at the greatest int4 is out of range.
last_version_raises :
    (handle admin (update_test 7 (record rename { version = 2147483647 })) (record start {
      db = record tables { performance_tests = record document_row { version = 2147483647 } ∷ [] };
    })).0
    ≡ err unexpected
unfolding runs
last_version_raises = refl
