-- ===== src/Services/Keeps/PerformanceTests.antt =====
-- services/performance_tests.py keeps what the repositories keep.
use bonerepo.Prelude.{ℕ, List, Bool}
use bonerepo.Tokens.{AccessClaims}
use bonerepo.Contracts.Tests.{TestCreate, TestUpdate, TestPlanSpec, SlaRuleSpec}
use bonerepo.Contracts.Updates.{Field, absent, null, given}
use bonerepo.Store.Rows.{PerformanceTest, Workload}
use bonerepo.Store.{World, unless}
use bonerepo.Store.Keeps.{Keeps, keeps_rules}
use bonerepo.Repositories.Keeps.{RepositoriesKeep}
use bonerepo.Services.Keeps.Simple.{noted, require_project}
use bonerepo.Services.PerformanceTests as tests

module _ (P : World → Type 0) (k : RepositoriesKeep P) where
  check_references :
      (c : Workload) (plans : List TestPlanSpec) → Keeps P (tests.check_references c plans)
  unfolding tests.check_references
  check_references c plans = record {
    at = λ w h.
        (kept
            (tests.no_problems (tests.pool_problem w c.generator_pool_id)
              (tests.missing_repos w plans))
            _).at
          w h;
  }
    where
      kept : (b : Bool) (e : _) → Keeps P (unless b e)
      kept b e = search keeps_rules

  pub document : (r : PerformanceTest) → Keeps P (tests.document r)
  unfolding tests.document
  document r = search (keeps_rules, k.plans_for, k.rules_for)

  pub create_test :
      (p : AccessClaims) (id : ℕ) (body : TestCreate) → Keeps P (tests.create p id body)
  unfolding tests.create
  create_test p id body =
      search
        (
          keeps_rules, k.insert_test, k.replace_plans, k.replace_rules, noted, require_project,
          check_references, document,
        )
        depth 12

  pub require_test : (id : ℕ) → Keeps P (tests.require id)
  unfolding tests.require
  require_test id = search (keeps_rules, k.get_test, document)

  pub recheck : (t : tests.TestDocument) (c : TestUpdate) → Keeps P (tests.recheck t c)
  unfolding tests.recheck
  recheck t c = search (keeps_rules, check_references)

  given_plans :
      (org id : ℕ) (f : Field (List TestPlanSpec)) → Keeps P (tests.replace_given_plans org id f)
  unfolding tests.replace_given_plans
  given_plans org id absent = search keeps_rules
  given_plans org id null = search keeps_rules
  given_plans org id (given plans) = search k.replace_plans

  given_rules :
      (org id : ℕ) (f : Field (List SlaRuleSpec)) → Keeps P (tests.replace_given_rules org id f)
  unfolding tests.replace_given_rules
  given_rules org id absent = search keeps_rules
  given_rules org id null = search keeps_rules
  given_rules org id (given rules) = search k.replace_rules

  pub after_update :
      (p : AccessClaims) (id : ℕ) (c : TestUpdate) (r : PerformanceTest)
      → Keeps P (tests.after_update p id c r)
  unfolding tests.after_update
  after_update p id c r = search (keeps_rules, given_plans, given_rules, noted, document)

  pub update_test : (p : AccessClaims) (id : ℕ) (c : TestUpdate) → Keeps P (tests.update p id c)
  unfolding tests.update
  update_test p id c = search (keeps_rules, k.update_test, require_test, recheck, after_update)

  pub archive_test : (p : AccessClaims) (id : ℕ) → Keeps P (tests.archive p id)
  unfolding tests.archive
  archive_test p id = search (keeps_rules, k.archive_test, require_test, noted)

pub ruleset test_services_rules = (create_test, require_test, update_test, archive_test)
