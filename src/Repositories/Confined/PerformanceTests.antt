-- ===== src/Repositories/Confined/PerformanceTests.antt =====
-- repositories/performance_tests.py stays inside the organisation.
use bonerepo.Repositories.Keeps.{insert_plans-Keeps, insert_rules-Keeps}
use bonerepo.Store.{sla_rule_tenant, test_plan_tenant, test_tenant, Db}
use bonerepo.Prelude.{ℕ, ◌≡◌, refl, Option, none, some, List, arith, not, ◌&&◌, ◌==◌}
use bonerepo.Store.Rows.{PerformanceTest, PerformanceTestPlan, SlaRule}
use bonerepo.Store.Table.{by_id, select_first}
use bonerepo.Store.Table.Outside.{outside-insert_row, outside-update_where, outside-delete_where}
use bonerepo.Store.Keeps.{Keeps, keeps_rules}
use bonerepo.Store.Confined.{Inside, Inside-draw}
use bonerepo.Contracts.Tests.{TestCreate, TestUpdate, TestPlanSpec, SlaRuleSpec}
use bonerepo.Repositories.PerformanceTests as repo

module _ (o : ℕ) (s : Option ℕ) (d : Db) where
  store_test : (r : PerformanceTest) → Keeps (Inside o s d) (repo.store r)
  unfolding repo.store
  store_test r = record {
    at = λ w h. ground (arith, outside-insert_row (some o) r w.db.performance_tests);
  }

  pub insert_test :
      (org project user : ℕ) (body : TestCreate)
      → Keeps (Inside o s d) (repo.insert org project user body)
  unfolding repo.insert
  insert_test org project user body = search (keeps_rules, store_test, Inside-draw)

  pub get_test : (id : ℕ) → Keeps (Inside o s d) (repo.get id)
  unfolding repo.get
  get_test id = record { at = λ w h. h }

  apply-same_org :
      (c : TestUpdate) (now : ℕ) (r : PerformanceTest)
      → (repo.apply c now r).organization_id ≡ r.organization_id
  unfolding repo.apply
  apply-same_org c now r = refl

  updated_test :
      (id : ℕ) (c : TestUpdate) (found : Option PerformanceTest)
      → Keeps (Inside o s d) (repo.update_found id c found)
  unfolding repo.update_found
  updated_test id c none = record { at = λ w h. ground arith }
  updated_test id c (some r) = record {
    at = λ w h. ground (
      arith,
      outside-update_where (some o) (repo.at_version id c.version) (repo.apply c w.now)
          w.db.performance_tests (apply-same_org c w.now),
    );
  }

  pub update_test : (id : ℕ) (c : TestUpdate) → Keeps (Inside o s d) (repo.update_document id c)
  unfolding repo.update_document
  update_test id c = record {
    at = λ w h.
        (updated_test id c
            (select_first w.org (repo.at_version id c.version) w.db.performance_tests)).at
          w h;
  }

  archived_test :
      (id : ℕ) (found : Option PerformanceTest) → Keeps (Inside o s d) (repo.archive_found id found)
  unfolding repo.archive_found
  archived_test id none = record { at = λ w h. h }
  archived_test id (some r) = record {
    at = λ w h. ground (
      arith,
      outside-update_where (some o) (λ s. s.id == id && not (repo.is_archived s.status))
          (repo.mark_archived w.now) w.db.performance_tests (λ s. refl),
    );
  }

  pub archive_test : (id : ℕ) → Keeps (Inside o s d) (repo.archive id)
  unfolding repo.archive
  archive_test id = record {
    at = λ w h. (archived_test id (by_id w.org id w.db.performance_tests)).at w h;
  }

  store_plan : (r : PerformanceTestPlan) → Keeps (Inside o s d) (repo.store_plan r)
  unfolding repo.store_plan
  store_plan r = record {
    at = λ w h. ground (arith, outside-insert_row (some o) r w.db.test_plans);
  }

  delete_plans : (id : ℕ) → Keeps (Inside o s d) (repo.delete_plans id)
  unfolding repo.delete_plans
  delete_plans id = record {
    at = λ w h.
        ground
          (arith, outside-delete_where (some o) (λ r. r.performance_test_id == id) w.db.test_plans);
  }

  pub replace_plans :
      (org id : ℕ) (plans : List TestPlanSpec)
      → Keeps (Inside o s d) (repo.replace_plans org id plans)
  unfolding repo.replace_plans
  replace_plans org id plans =
      search (keeps_rules, delete_plans, insert_plans-Keeps (Inside-draw o s d) store_plan)

  store_rule : (r : SlaRule) → Keeps (Inside o s d) (repo.store_rule r)
  unfolding repo.store_rule
  store_rule r = record { at = λ w h. ground (arith, outside-insert_row (some o) r w.db.sla_rules) }

  delete_rules : (id : ℕ) → Keeps (Inside o s d) (repo.delete_rules id)
  unfolding repo.delete_rules
  delete_rules id = record {
    at = λ w h.
        ground
          (arith, outside-delete_where (some o) (λ r. r.performance_test_id == id) w.db.sla_rules);
  }

  pub replace_rules :
      (org id : ℕ) (rules : List SlaRuleSpec)
      → Keeps (Inside o s d) (repo.replace_sla_rules org id rules)
  unfolding repo.replace_sla_rules
  replace_rules org id rules =
      search (keeps_rules, delete_rules, insert_rules-Keeps (Inside-draw o s d) store_rule)

  pub plans_for : (id : ℕ) → Keeps (Inside o s d) (repo.plans_for id)
  unfolding repo.plans_for
  plans_for id = record { at = λ w h. h }

  pub rules_for : (id : ℕ) → Keeps (Inside o s d) (repo.sla_rules_for id)
  unfolding repo.sla_rules_for
  rules_for id = record { at = λ w h. h }

pub ruleset tests_rules = (
  insert_test, get_test, update_test, archive_test, replace_plans, replace_rules, plans_for,
  rules_for,
)
