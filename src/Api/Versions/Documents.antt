-- ===== src/Api/Versions/Documents.antt =====
-- repositories/performance_tests.py keeps a stable property of its rows.
use bonerepo.Repositories.Keeps.{insert_plans-Keeps, insert_rules-Keeps}
use bonerepo.Store.{test_tenant, draw, ◌>>=◌}
use bonerepo.Prelude.{ℕ, suc, refl, Option, none, some, List, arith, not, ◌&&◌, ◌==◌}
use bonerepo.Contracts.Tests.{TestCreate, TestUpdate, TestPlanSpec, SlaRuleSpec}
use bonerepo.Store.Rows.{PerformanceTest, PerformanceTestPlan, SlaRule}
use bonerepo.Store.Table.{by_id, select_first}
use bonerepo.Store.Keeps.{Keeps, keeps_rules}
use bonerepo.Repositories.PerformanceTests as tests
use bonerepo.Api.Versions.Stable.{Stable, Holds, drawing}

module _ (P : ℕ → List PerformanceTest → Type 0) (s : Stable P) where
  pub insert_test :
      (org project user : ℕ) (body : TestCreate)
      → Keeps (Holds P) (tests.insert org project user body)
  unfolding tests.insert tests.store tests.test_row ◌>>=◌ draw
  insert_test org project user body = record {
    at = λ w h.
        let row = tests.test_row org project user body w.drawn w.now in
        ground (
          arith,
          s.more w.drawn (suc w.drawn) w.db.performance_tests (omega arith) h,
          s.insert w.drawn w.db.performance_tests row refl h,
        );
  }

  pub update_test_found :
      (id : ℕ) (c : TestUpdate) (found : Option PerformanceTest)
      → Keeps (Holds P) (tests.update_found id c found)
  unfolding tests.update_found
  update_test_found id c none = record { at = λ w h. ground arith }
  update_test_found id c (some r) = record {
    at = λ w h. ground (arith, s.update w.drawn w.db.performance_tests w.org id c w.now h);
  }

  pub archive_test_found :
      (id : ℕ) (found : Option PerformanceTest) → Keeps (Holds P) (tests.archive_found id found)
  unfolding tests.archive_found
  archive_test_found id none = record { at = λ w h. h }
  archive_test_found id (some r) = record {
    at = λ w h. ground (
      arith,
      s.archive w.drawn w.db.performance_tests w.org
          (λ r. r.id == id && not (tests.is_archived r.status)) w.now h,
    );
  }

  pub update_test : (id : ℕ) (c : TestUpdate) → Keeps (Holds P) (tests.update_document id c)
  unfolding tests.update_document
  update_test id c = record {
    at = λ w h.
        (update_test_found id c
            (select_first w.org (tests.at_version id c.version) w.db.performance_tests)).at
          w h;
  }

  pub archive_test : (id : ℕ) → Keeps (Holds P) (tests.archive id)
  unfolding tests.archive
  archive_test id = record {
    at = λ w h. (archive_test_found id (by_id w.org id w.db.performance_tests)).at w h;
  }

  pub get_test : (id : ℕ) → Keeps (Holds P) (tests.get id)
  unfolding tests.get
  get_test id = record { at = λ w h. h }

  pub store_plan : (r : PerformanceTestPlan) → Keeps (Holds P) (tests.store_plan r)
  unfolding tests.store_plan
  store_plan r = record { at = λ w h. ground arith }

  pub store_rule : (r : SlaRule) → Keeps (Holds P) (tests.store_rule r)
  unfolding tests.store_rule
  store_rule r = record { at = λ w h. ground arith }

  pub plans_of : (id : ℕ) → Keeps (Holds P) (tests.plans_for id)
  unfolding tests.plans_for
  plans_of id = record { at = λ w h. h }

  pub rules_of : (id : ℕ) → Keeps (Holds P) (tests.sla_rules_for id)
  unfolding tests.sla_rules_for
  rules_of id = record { at = λ w h. h }

  pub delete_plans : (id : ℕ) → Keeps (Holds P) (tests.delete_plans id)
  unfolding tests.delete_plans
  delete_plans id = record { at = λ w h. h }

  pub delete_rules : (id : ℕ) → Keeps (Holds P) (tests.delete_rules id)
  unfolding tests.delete_rules
  delete_rules id = record { at = λ w h. h }

  pub replace_plans :
      (org id : ℕ) (plans : List TestPlanSpec) → Keeps (Holds P) (tests.replace_plans org id plans)
  unfolding tests.replace_plans
  replace_plans org id plans =
      search (keeps_rules, delete_plans, insert_plans-Keeps (drawing P s) store_plan)

  pub replace_rules :
      (org id : ℕ) (rules : List SlaRuleSpec)
      → Keeps (Holds P) (tests.replace_sla_rules org id rules)
  unfolding tests.replace_sla_rules
  replace_rules org id rules =
      search (keeps_rules, delete_rules, insert_rules-Keeps (drawing P s) store_rule)

pub ruleset test_tables = (
  insert_test, update_test, archive_test, get_test, replace_plans, replace_rules, plans_of,
  rules_of,
)
