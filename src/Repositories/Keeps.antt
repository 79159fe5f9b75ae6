-- ===== src/Repositories/Keeps.antt =====
-- What an invariant asks of the repositories, so that every service keeps it.
use bonerepo.Prelude.{[], ◌∷◌, ℕ, Option, List}
use bonerepo.Store.{draw, ◌>>=◌, World}
use bonerepo.Store.Rows.{PerformanceTestPlan, SlaRule, AuditAction, AuditMetadata}
use bonerepo.Store.Keeps.{Keeps-bind, keeps_rules, Keeps}
use bonerepo.Prelude.Texts.{Text}
use bonerepo.Contracts.Projects.{ProjectCreate, ProjectUpdate}
use bonerepo.Contracts.Pools.{PoolCreate, PoolUpdate}
use bonerepo.Contracts.Tests.{TestCreate, TestUpdate, TestPlanSpec, SlaRuleSpec}
use bonerepo.Repositories.Audit as audit
use bonerepo.Repositories.Projects as projects
use bonerepo.Repositories.Pools as pools
use bonerepo.Repositories.PerformanceTests as tests
use bonerepo.Repositories.TargetPolicies as policies

pub record RepositoriesKeep (P : World → Type 0) : Type 0 where
  pub insert_audit :
      (org : ℕ) (user : Option ℕ) (a : AuditAction) (e : Option ℕ) (m : Option AuditMetadata)
      → Keeps P (audit.insert org user a e m)
  pub insert_project :
      (org user : ℕ) (body : ProjectCreate) → Keeps P (projects.insert org user body)
  pub get_project : (id : ℕ) → Keeps P (projects.get id)
  pub update_project : (id : ℕ) (c : ProjectUpdate) → Keeps P (projects.update id c)
  pub archive_project : (id : ℕ) → Keeps P (projects.archive id)
  pub insert_pool : (org : ℕ) (body : PoolCreate) → Keeps P (pools.insert org body)
  pub get_pool : (id : ℕ) → Keeps P (pools.get id)
  pub update_pool : (id : ℕ) (c : PoolUpdate) → Keeps P (pools.update id c)
  pub archive_pool : (id : ℕ) → Keeps P (pools.archive id)
  pub current : Keeps P policies.current
  pub insert_next_version :
      (org user : ℕ) (allowlist : List Text)
      → Keeps P (policies.insert_next_version org user allowlist)
  pub insert_test :
      (org project user : ℕ) (body : TestCreate) → Keeps P (tests.insert org project user body)
  pub get_test : (id : ℕ) → Keeps P (tests.get id)
  pub update_test : (id : ℕ) (c : TestUpdate) → Keeps P (tests.update_document id c)
  pub archive_test : (id : ℕ) → Keeps P (tests.archive id)
  pub replace_plans :
      (org id : ℕ) (plans : List TestPlanSpec) → Keeps P (tests.replace_plans org id plans)
  pub replace_rules :
      (org id : ℕ) (rules : List SlaRuleSpec) → Keeps P (tests.replace_sla_rules org id rules)
  pub plans_for : (id : ℕ) → Keeps P (tests.plans_for id)
  pub rules_for : (id : ℕ) → Keeps P (tests.sla_rules_for id)

-- The two loops of INSERT statements.
module _ {P : World → Type 0} (drawing : Keeps P draw) where
  pub insert_plans-Keeps :
      (store : (r : PerformanceTestPlan) → Keeps P (tests.store_plan r)) (org id : ℕ)
      (plans : List TestPlanSpec)
      → Keeps P (tests.insert_plans org id plans)
  unfolding tests.insert_plans
  insert_plans-Keeps store org id [] = search keeps_rules
  insert_plans-Keeps store org id (p ∷ ps) =
      let rest = insert_plans-Keeps store org id ps in
      Keeps-bind draw
        (λ fresh.
          tests.store_plan (tests.plan_row org id p fresh) >>= λ _. tests.insert_plans org id ps)
        drawing
        (λ fresh.
          Keeps-bind (tests.store_plan (tests.plan_row org id p fresh))
            (λ _. tests.insert_plans org id ps) (store (tests.plan_row org id p fresh)) (λ _. rest))

  pub insert_rules-Keeps :
      (store : (r : SlaRule) → Keeps P (tests.store_rule r)) (org id : ℕ) (rules : List SlaRuleSpec)
      → Keeps P (tests.insert_rules org id rules)
  unfolding tests.insert_rules
  insert_rules-Keeps store org id [] = search keeps_rules
  insert_rules-Keeps store org id (p ∷ ps) =
      let rest = insert_rules-Keeps store org id ps in
      Keeps-bind draw
        (λ fresh.
          tests.store_rule (tests.rule_row org id p fresh) >>= λ _. tests.insert_rules org id ps)
        drawing
        (λ fresh.
          Keeps-bind (tests.store_rule (tests.rule_row org id p fresh))
            (λ _. tests.insert_rules org id ps) (store (tests.rule_row org id p fresh)) (λ _. rest))
