-- ===== src/Store/Confined.antt =====
-- Actions that leave the rows of the other organisations alone.
use bonerepo.Prelude.{ℕ, ◌≡◌, refl, ◌∙◌, Option, some, Result, ok, err}
use bonerepo.Store.Table.Outside.{outside}
use bonerepo.Store.Keeps.{Keeps}
use bonerepo.Store.{
  user_tenant, project_tenant, credential_tenant, script_repo_tenant, test_tenant, test_plan_tenant,
  sla_rule_tenant, pool_tenant, run_tenant, run_generator_tenant, audit_log_tenant,
  target_policy_tenant, family_tenant, history_tenant, Db, World, Failure, Exec, draw,
  session_for_org, scope, begin, settle,
}

-- The rows that a session of the organisation does not see are the same.
pub record SameOutside (o : Option ℕ) (a b : Db) : Type 0 where
  pub users : outside o a.users ≡ outside o b.users
  pub projects : outside o a.projects ≡ outside o b.projects
  pub credentials : outside o a.credentials ≡ outside o b.credentials
  pub script_repos : outside o a.script_repos ≡ outside o b.script_repos
  pub performance_tests : outside o a.performance_tests ≡ outside o b.performance_tests
  pub test_plans : outside o a.test_plans ≡ outside o b.test_plans
  pub sla_rules : outside o a.sla_rules ≡ outside o b.sla_rules
  pub pools : outside o a.pools ≡ outside o b.pools
  pub runs : outside o a.runs ≡ outside o b.runs
  pub run_generators : outside o a.run_generators ≡ outside o b.run_generators
  pub audit_logs : outside o a.audit_logs ≡ outside o b.audit_logs
  pub target_policies : outside o a.target_policies ≡ outside o b.target_policies
  pub families : outside o a.families ≡ outside o b.families
  pub history : outside o a.history ≡ outside o b.history

pub SameOutside-refl : (o : Option ℕ) (a : Db) → SameOutside o a a
SameOutside-refl o a = record {
  users = refl;
  projects = refl;
  credentials = refl;
  script_repos = refl;
  performance_tests = refl;
  test_plans = refl;
  sla_rules = refl;
  pools = refl;
  runs = refl;
  run_generators = refl;
  audit_logs = refl;
  target_policies = refl;
  families = refl;
  history = refl;
}

pub SameOutside-trans :
    {o : Option ℕ} {a b c : Db} → SameOutside o a b → SameOutside o b c → SameOutside o a c
SameOutside-trans h k = record {
  users = h.users ∙ k.users;
  projects = h.projects ∙ k.projects;
  credentials = h.credentials ∙ k.credentials;
  script_repos = h.script_repos ∙ k.script_repos;
  performance_tests = h.performance_tests ∙ k.performance_tests;
  test_plans = h.test_plans ∙ k.test_plans;
  sla_rules = h.sla_rules ∙ k.sla_rules;
  pools = h.pools ∙ k.pools;
  runs = h.runs ∙ k.runs;
  run_generators = h.run_generators ∙ k.run_generators;
  audit_logs = h.audit_logs ∙ k.audit_logs;
  target_policies = h.target_policies ∙ k.target_policies;
  families = h.families ∙ k.families;
  history = h.history ∙ k.history;
}

-- The transaction is the organisation's, COMMIT leaves the setting `s`, and the rows outside the
-- organisation are those of `d`.
pub record Inside (o : ℕ) (s : Option ℕ) (d : Db) (w : World) : Type 0 where
  pub setting : w.org ≡ some o
  pub session : w.session_org ≡ s
  pub same : SameOutside (some o) w.db d

-- An action keeps to its organisation, whether it returns or raises.
abbrev pub Confined : {A : Type 0} → ℕ → Exec A → Type 0
Confined o m = (s : Option ℕ) (d : Db) → Keeps (Inside o s d) m

pub Inside-draw : (o : ℕ) (s : Option ℕ) (d : Db) → Keeps (Inside o s d) draw
unfolding draw
Inside-draw o s d = record {
  at = λ w h. record { setting = h.setting; session = h.session; same = h.same };
}

-- A transaction of an organisation leaves the others' rows alone, committed or rolled back.
pub session_for_org-SameOutside :
    {A : Type 0} (o : ℕ) (m : Exec A) (w : World)
    → Confined o m
    → SameOutside (some o) (session_for_org (some o) m w).1.db w.db
unfolding session_for_org
session_for_org-SameOutside o m w k =
    settled (m (scope (some o) (begin w)))
      ((k w.org w.db).at _
        (record { setting = refl; session = refl; same = SameOutside-refl _ _ })).same
  where
    settled :
        {A : Type 0} (r : Result Failure A × World)
        → SameOutside (some o) r.1.db w.db
        → SameOutside (some o) (settle w r).1.db w.db
    settled (ok a, w') h = h
    settled (err e, w') h = SameOutside-refl _ _

-- The setting does not outlive the transaction, committed or rolled back.
pub session_for_org-org :
    {A : Type 0} (o : ℕ) (m : Exec A) (w : World)
    → Confined o m
    → (session_for_org (some o) m w).1.org ≡ w.org
unfolding session_for_org
session_for_org-org o m w k =
    settled (m (scope (some o) (begin w)))
      ((k w.org w.db).at _
        (record { setting = refl; session = refl; same = SameOutside-refl _ _ })).session
  where
    settled :
        {A : Type 0} (r : Result Failure A × World)
        → r.1.session_org ≡ w.org
        → (settle w r).1.org ≡ w.org
    settled (ok a, w') h = h
    settled (err e, w') h = refl
