-- ===== src/Services/PerformanceTests.antt =====
-- services/performance_tests.py
use bonerepo.Store.{
  pool_tenant, script_repo_tenant, ◌>>=◌, ◌>>◌, World, Exec, plimsoll, unexpected, pure, unless,
  or_raise,
}
use bonerepo.Prelude.{
  ℕ, Bool, true, false, ◌||◌, Option, none, some, List, [], ◌∷◌, if◌then◌else◌, length,
}
use bonerepo.Tokens.{AccessClaims}
use bonerepo.Contracts.Errors.{not_found, conflict, validation_failed, expected_version, references}
use bonerepo.Contracts.Updates.{Field, given}
use bonerepo.Contracts.Tests.{TestCreate, TestUpdate, TestPlanSpec, SlaRuleSpec, changed_fields}
use bonerepo.Store.Rows.{
  PerformanceTest, Workload, test_created, test_updated, test_deleted, plans_and_rules,
  fields_and_version,
}
use bonerepo.Store.Table.{by_id}
use bonerepo.Repositories.PerformanceTests as repo
use bonerepo.Services.Projects as projects
use bonerepo.Services.Audit.{note}

pub record TestDocument : Type 0 where
  pub row : PerformanceTest
  pub plans : List TestPlanSpec
  pub sla_rules : List SlaRuleSpec

unfoldable pub is_missing : {A : Type 0} → Option A → Bool
is_missing none = true
is_missing (some a) = false

-- The references of the plans for which script_repos_repo.get finds nothing.
unfoldable pub missing_repos : World → List TestPlanSpec → List ℕ
unfolding is_missing
missing_repos w [] = []
missing_repos w (plan ∷ plans) =
    let rest = missing_repos w plans in
    if is_missing (by_id w.org plan.script_repo_id w.db.script_repos)
    then plan.script_repo_id ∷ rest
    else rest

-- `problems`: the pool, if it does not exist, and the repositories that do not
unfoldable pub pool_problem : World → ℕ → Option ℕ
unfolding is_missing
pool_problem w pool_id = if is_missing (by_id w.org pool_id w.db.pools) then some pool_id else none

unfoldable pub no_problems : Option ℕ → List ℕ → Bool
no_problems none [] = true
no_problems _ _ = false

unfoldable pub check_references : Workload → List TestPlanSpec → Exec (Unit {0})
unfolding no_problems
check_references configuration plans w =
    let pool = pool_problem w configuration.generator_pool_id in
    let repos = missing_repos w plans in
    unless (no_problems pool repos)
      (plimsoll (record { code = validation_failed; details = some (references pool repos) })) w

-- `_document`
unfoldable pub document : PerformanceTest → Exec TestDocument
document row = do
  plans ← repo.plans_for row.id
  rules ← repo.sla_rules_for row.id
  pure (record { row = row; plans = plans; sla_rules = rules })

unfoldable pub create : AccessClaims → ℕ → TestCreate → Exec TestDocument
create principal project_id body = do
  project ← projects.require project_id
  check_references body.configuration body.plans
  row ← repo.insert principal.organization_id project_id principal.user_id body
  repo.replace_plans principal.organization_id row.id body.plans
  repo.replace_sla_rules principal.organization_id row.id body.sla_rules
  note principal test_created row.id
      (some (plans_and_rules (length body.plans) (length body.sla_rules)))
  document row

unfoldable pub require : ℕ → Exec TestDocument
require test_id = do
  found ← repo.get test_id
  row ← or_raise (plimsoll (record { code = not_found; details = none })) found
  document row

-- `body.configuration or WorkloadSpec.model_validate(current.row.configuration)`
unfoldable pub effective_configuration : Field Workload → Option Workload → Option Workload
effective_configuration (given w) stored = some w
effective_configuration _ stored = stored

-- `body.plans if body.plans is not None else current.plans`
unfoldable pub effective : {A : Type 0} → Field A → A → A
effective (given a) stored = a
effective _ stored = stored

unfoldable pub is_given : {A : Type 0} → Field A → Bool
is_given (given a) = true
is_given _ = false

unfoldable pub recheck : TestDocument → TestUpdate → Exec (Unit {0})
recheck current body =
    if is_given body.configuration || is_given body.plans
    then (do
      configuration ←
          or_raise unexpected (effective_configuration body.configuration current.row.configuration)
      check_references configuration (effective body.plans current.plans))
    else pure tt

-- Absent means leave alone; an empty list means clear.
unfoldable pub replace_given_plans : ℕ → ℕ → Field (List TestPlanSpec) → Exec (Unit {0})
replace_given_plans org_id test_id (given plans) = repo.replace_plans org_id test_id plans
replace_given_plans org_id test_id _ = pure tt

unfoldable pub replace_given_rules : ℕ → ℕ → Field (List SlaRuleSpec) → Exec (Unit {0})
replace_given_rules org_id test_id (given rules) = repo.replace_sla_rules org_id test_id rules
replace_given_rules org_id test_id _ = pure tt

-- What follows the guarded UPDATE.
unfoldable pub after_update : AccessClaims → ℕ → TestUpdate → PerformanceTest → Exec TestDocument
after_update principal test_id body row = do
  replace_given_plans principal.organization_id test_id body.plans
  replace_given_rules principal.organization_id test_id body.sla_rules
  note principal test_updated test_id (some (fields_and_version (changed_fields body) row.version))
  document row

unfoldable pub update : AccessClaims → ℕ → TestUpdate → Exec TestDocument
update principal test_id body = do
  current ← require test_id
  recheck current body
  found ← repo.update_document test_id body
  row ←
      or_raise
        (plimsoll (record { code = conflict; details = some (expected_version body.version) }))
        found
  after_update principal test_id body row

unfoldable pub archive : AccessClaims → ℕ → Exec (Unit {0})
archive principal test_id = do
  current ← require test_id
  done ← repo.archive test_id
  if done then note principal test_deleted test_id none else pure tt
