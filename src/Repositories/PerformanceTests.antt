-- ===== src/Repositories/PerformanceTests.antt =====
-- repositories/performance_tests.py
use bonerepo.Store.{
  user_tenant, project_tenant, script_repo_tenant, sla_rule_tenant, test_plan_tenant, test_tenant,
  ◌>>=◌, ◌>>◌, World, Exec, policy, integrity, unexpected, draw, current_time, pure,
}
use bonerepo.Prelude.{
  ℕ, ◌+◌, Bool, true, false, not, ◌&&◌, ◌||◌, Option, some, none, ok, err, List, [], ◌∷◌, ◌==◌, leb,
  if◌then◌else◌, map,
}
use bonerepo.Prelude.Sorting.{sort, text_leb}
use bonerepo.Contracts.Tests.{TestCreate, TestUpdate, TestPlanSpec, SlaRuleSpec}
use bonerepo.Contracts.Updates.{Field, absent, null, given, is_null, set_required, set_nullable}
use bonerepo.Store.Rows.{
  User, Project, ScriptRepo, PerformanceTest, PerformanceTestPlan, SlaRule, Workload, RowStatus,
  draft, archived,
}
use bonerepo.Store.Table.{
  visible, by_id, select, select_first, update_where, delete_where, insert_row, taken, is_int4,
}

unfoldable pub put : List PerformanceTest → World → World
put rows w = record w { db = record w.db { performance_tests = rows } }

unfoldable pub put_plans : List PerformanceTestPlan → World → World
put_plans rows w = record w { db = record w.db { test_plans = rows } }

unfoldable pub put_rules : List SlaRule → World → World
put_rules rows w = record w { db = record w.db { sla_rules = rows } }

-- The PRIMARY KEY, and the FOREIGN KEYs to projects and users. They span every organisation.
unfoldable pub has_author : Option ℕ → World → Bool
has_author none w = true
has_author (some user_id) w = taken (λ (u : User). u.id == user_id) w.db.users

unfoldable pub keys_hold : PerformanceTest → World → Bool
unfolding has_author
keys_hold r w =
    not (taken (λ (s : PerformanceTest). s.id == r.id) w.db.performance_tests)
    && taken (λ (p : Project). p.id == r.project_id) w.db.projects
    && has_author r.created_by w

unfoldable pub store : PerformanceTest → Exec PerformanceTest
unfolding put keys_hold
store r w =
    if visible w.org r
    then if keys_hold r w
      then (ok r, put (insert_row r w.db.performance_tests) w)
      else (err integrity, w)
    else (err policy, w)

-- The values of the INSERT, with the columns' defaults.
unfoldable pub test_row : ℕ → ℕ → ℕ → TestCreate → ℕ → ℕ → PerformanceTest
test_row org_id project_id created_by body fresh now = record {
  id = fresh;
  organization_id = org_id;
  project_id = project_id;
  name = body.name;
  description = body.description;
  status = draft;
  configuration = some body.configuration;
  version = 1;
  tags = body.tags;
  created_by = some created_by;
  created_at = now;
  updated_at = now;
}

unfoldable pub insert : ℕ → ℕ → ℕ → TestCreate → Exec PerformanceTest
insert org_id project_id created_by body = do
  fresh ← draw
  now ← current_time
  store (test_row org_id project_id created_by body fresh now)

unfoldable pub get : ℕ → Exec (Option PerformanceTest)
get test_id w = (ok (by_id w.org test_id w.db.performance_tests), w)

unfoldable pub nulls_required : TestUpdate → Bool
unfolding is_null
nulls_required c = is_null c.name || is_null c.tags

-- json.dumps: a null configuration becomes the JSON null
unfoldable pub set_configuration : Field Workload → Option Workload → Option Workload
set_configuration absent old = old
set_configuration null old = none
set_configuration (given w) old = some w

unfoldable pub apply : TestUpdate → ℕ → PerformanceTest → PerformanceTest
unfolding set_required set_nullable set_configuration
apply c now r = record r {
  name = set_required c.name r.name;
  description = set_nullable c.description r.description;
  configuration = set_configuration c.configuration r.configuration;
  tags = set_required c.tags r.tags;
  version = r.version + 1;
  updated_at = now;
}

-- WHERE id = :id AND version = :expected_version
unfoldable pub at_version : ℕ → ℕ → PerformanceTest → Bool
at_version test_id expected r = r.id == test_id && r.version == expected

-- `:expected_version` and version + 1 are int4. A negative version is no row's, as is 0.
unfoldable pub update_found :
    ℕ → TestUpdate → Option PerformanceTest → Exec (Option PerformanceTest)
unfolding nulls_required is_int4 put
update_found test_id c none w = if is_int4 c.version then (ok none, w) else (err unexpected, w)
update_found test_id c (some r) w =
    if is_int4 (r.version + 1)
    then if nulls_required c then (err integrity, w) else (
      ok (some (apply c w.now r)),
      put (update_where w.org (at_version test_id c.version) (apply c w.now) w.db.performance_tests)
          w,
    )
    else (err unexpected, w)

unfoldable pub update_document : ℕ → TestUpdate → Exec (Option PerformanceTest)
unfolding update_found
update_document test_id c w =
    update_found test_id c
      (select_first w.org (at_version test_id c.version) w.db.performance_tests) w

unfoldable pub has_test : ℕ → World → Bool
has_test test_id w = taken (λ (s : PerformanceTest). s.id == test_id) w.db.performance_tests

unfoldable pub plan_keys_hold : PerformanceTestPlan → World → Bool
unfolding has_test
plan_keys_hold r w =
    not (taken (λ (s : PerformanceTestPlan). s.id == r.id) w.db.test_plans)
    && has_test r.performance_test_id w
    && taken (λ (s : ScriptRepo). s.id == r.script_repo_id) w.db.script_repos

unfoldable pub store_plan : PerformanceTestPlan → Exec (Unit {0})
unfolding put_plans plan_keys_hold
store_plan r w =
    if visible w.org r
    then if plan_keys_hold r w
      then (ok tt, put_plans (insert_row r w.db.test_plans) w)
      else (err integrity, w)
    else (err policy, w)

unfoldable pub delete_plans : ℕ → Exec (Unit {0})
unfolding put_plans
delete_plans test_id w = (
  ok tt,
  put_plans (delete_where w.org (λ r. r.performance_test_id == test_id) w.db.test_plans) w,
)

unfoldable pub plan_row : ℕ → ℕ → TestPlanSpec → ℕ → PerformanceTestPlan
plan_row org_id test_id plan fresh = record {
  id = fresh;
  organization_id = org_id;
  performance_test_id = test_id;
  script_repo_id = plan.script_repo_id;
  pinned_ref = plan.pinned_ref;
  virtual_users = plan.virtual_users;
  execution_order = plan.execution_order;
}

unfoldable pub insert_plans : ℕ → ℕ → List TestPlanSpec → Exec (Unit {0})
insert_plans org_id test_id [] = pure tt
insert_plans org_id test_id (plan ∷ plans) = do
  fresh ← draw
  store_plan (plan_row org_id test_id plan fresh)
  insert_plans org_id test_id plans

unfoldable pub replace_plans : ℕ → ℕ → List TestPlanSpec → Exec (Unit {0})
replace_plans org_id test_id plans = do delete_plans test_id; insert_plans org_id test_id plans

unfoldable pub rule_keys_hold : SlaRule → World → Bool
unfolding has_test
rule_keys_hold r w =
    not (taken (λ (s : SlaRule). s.id == r.id) w.db.sla_rules) && has_test r.performance_test_id w

unfoldable pub store_rule : SlaRule → Exec (Unit {0})
unfolding put_rules rule_keys_hold
store_rule r w =
    if visible w.org r
    then if rule_keys_hold r w
      then (ok tt, put_rules (insert_row r w.db.sla_rules) w)
      else (err integrity, w)
    else (err policy, w)

unfoldable pub delete_rules : ℕ → Exec (Unit {0})
unfolding put_rules
delete_rules test_id w =
    (ok tt, put_rules (delete_where w.org (λ r. r.performance_test_id == test_id) w.db.sla_rules) w)

unfoldable pub rule_row : ℕ → ℕ → SlaRuleSpec → ℕ → SlaRule
rule_row org_id test_id rule fresh = record {
  id = fresh;
  organization_id = org_id;
  performance_test_id = test_id;
  name = rule.name;
  metric = rule.metric;
  entity = rule.entity;
  operator = rule.operator;
  threshold = rule.threshold;
  unit = rule.unit;
  severity = rule.severity;
  enabled = rule.enabled;
}

unfoldable pub insert_rules : ℕ → ℕ → List SlaRuleSpec → Exec (Unit {0})
insert_rules org_id test_id [] = pure tt
insert_rules org_id test_id (rule ∷ rules) = do
  fresh ← draw
  store_rule (rule_row org_id test_id rule fresh)
  insert_rules org_id test_id rules

unfoldable pub replace_sla_rules : ℕ → ℕ → List SlaRuleSpec → Exec (Unit {0})
replace_sla_rules org_id test_id rules = do delete_rules test_id; insert_rules org_id test_id rules

unfoldable pub plan_spec : PerformanceTestPlan → TestPlanSpec
plan_spec r = record {
  script_repo_id = r.script_repo_id;
  pinned_ref = r.pinned_ref;
  virtual_users = r.virtual_users;
  execution_order = r.execution_order;
}

unfoldable pub rule_spec : SlaRule → SlaRuleSpec
rule_spec r = record {
  name = r.name;
  metric = r.metric;
  entity = r.entity;
  operator = r.operator;
  threshold = r.threshold;
  unit = r.unit;
  severity = r.severity;
  enabled = r.enabled;
}

-- ORDER BY execution_order, ORDER BY name; rows that tie come in the order of insertion
unfoldable pub plan_before : TestPlanSpec → TestPlanSpec → Bool
plan_before a b = leb a.execution_order b.execution_order

unfoldable pub rule_before : SlaRuleSpec → SlaRuleSpec → Bool
rule_before a b = text_leb a.name b.name

unfoldable pub plans_for : ℕ → Exec (List TestPlanSpec)
plans_for test_id w = (
  ok (
      sort plan_before
        (map plan_spec (select w.org (λ r. r.performance_test_id == test_id) w.db.test_plans))),
  w,
)

unfoldable pub sla_rules_for : ℕ → Exec (List SlaRuleSpec)
sla_rules_for test_id w = (
  ok (
      sort rule_before
        (map rule_spec (select w.org (λ r. r.performance_test_id == test_id) w.db.sla_rules))),
  w,
)

unfoldable pub is_archived : RowStatus → Bool
is_archived archived = true
is_archived _ = false

unfoldable pub mark_archived : ℕ → PerformanceTest → PerformanceTest
mark_archived now r = record r { status = archived; updated_at = now }

unfoldable pub archive_found : ℕ → Option PerformanceTest → Exec Bool
unfolding is_archived mark_archived put
archive_found test_id none w = (ok false, w)
archive_found test_id (some r) w = if is_archived r.status then (ok false, w) else (
  ok true,
  put
      (update_where w.org (λ s. s.id == test_id && not (is_archived s.status)) (mark_archived w.now)
        w.db.performance_tests)
      w,
)

unfoldable pub archive : ℕ → Exec Bool
unfolding archive_found
archive test_id w = archive_found test_id (by_id w.org test_id w.db.performance_tests) w
