-- ===== src/Api/Reads/Unmoved.antt =====
-- The actions after the UPDATE of a performance test leave its row as the statement left it.
use bonerepo.Repositories.Keeps.{insert_plans-Keeps, insert_rules-Keeps}
use bonerepo.Prelude.{ℕ, ◌≡◌, Option, List, arith}
use bonerepo.Tokens.{AccessClaims}
use bonerepo.Contracts.Tests.{TestPlanSpec, SlaRuleSpec}
use bonerepo.Contracts.Updates.{Field, absent, null, given}
use bonerepo.Store.Rows.{
  AuditLog, AuditAction, AuditMetadata, PerformanceTest, PerformanceTestPlan, SlaRule,
}
use bonerepo.Store.{World, draw}
use bonerepo.Store.Keeps.{Keeps, keeps_rules}
use bonerepo.Repositories.Audit
use bonerepo.Repositories.PerformanceTests as tests
use bonerepo.Services.Audit.{note}
use bonerepo.Services.PerformanceTests as service

pub record Unmoved (o : Option ℕ) (rows : List PerformanceTest) (w : World) : Type 0 where
  pub setting : w.org ≡ o
  pub table : w.db.performance_tests ≡ rows

module _ (o : Option ℕ) (rows : List PerformanceTest) where
  drawing : Keeps (Unmoved o rows) draw
  unfolding draw
  drawing = record { at = λ w h. record { setting = h.setting; table = h.table } }

  store_audit : (r : AuditLog) → Keeps (Unmoved o rows) (Audit.store r)
  unfolding Audit.store
  store_audit r = record { at = λ w h. ground arith }

  pub noted :
      (p : AccessClaims) (a : AuditAction) (e : ℕ) (m : Option AuditMetadata)
      → Keeps (Unmoved o rows) (note p a e m)
  unfolding note Audit.insert
  noted p a e m = search (keeps_rules, store_audit, drawing)

  store_plan : (r : PerformanceTestPlan) → Keeps (Unmoved o rows) (tests.store_plan r)
  unfolding tests.store_plan
  store_plan r = record { at = λ w h. ground arith }

  delete_plans : (id : ℕ) → Keeps (Unmoved o rows) (tests.delete_plans id)
  unfolding tests.delete_plans
  delete_plans id = record { at = λ w h. record { setting = h.setting; table = h.table } }

  store_rule : (r : SlaRule) → Keeps (Unmoved o rows) (tests.store_rule r)
  unfolding tests.store_rule
  store_rule r = record { at = λ w h. ground arith }

  delete_rules : (id : ℕ) → Keeps (Unmoved o rows) (tests.delete_rules id)
  unfolding tests.delete_rules
  delete_rules id = record { at = λ w h. record { setting = h.setting; table = h.table } }

  pub given_plans :
      (org id : ℕ) (f : Field (List TestPlanSpec))
      → Keeps (Unmoved o rows) (service.replace_given_plans org id f)
  unfolding service.replace_given_plans tests.replace_plans
  given_plans org id absent = search keeps_rules
  given_plans org id null = search keeps_rules
  given_plans org id (given plans) =
      search (keeps_rules, delete_plans, insert_plans-Keeps drawing store_plan)

  pub given_rules :
      (org id : ℕ) (f : Field (List SlaRuleSpec))
      → Keeps (Unmoved o rows) (service.replace_given_rules org id f)
  unfolding service.replace_given_rules tests.replace_sla_rules
  given_rules org id absent = search keeps_rules
  given_rules org id null = search keeps_rules
  given_rules org id (given rules) =
      search (keeps_rules, delete_rules, insert_rules-Keeps drawing store_rule)
