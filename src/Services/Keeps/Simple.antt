-- ===== src/Services/Keeps/Simple.antt =====
-- services/projects.py, pools.py and target_policy.py keep what the repositories keep.
use bonerepo.Prelude.{ℕ, Option, List, Result, ok, err}
use bonerepo.Prelude.Texts.{Text}
use bonerepo.Tokens.{AccessClaims}
use bonerepo.Errors.{PlimsollError}
use bonerepo.Contracts.Projects.{ProjectCreate, ProjectUpdate}
use bonerepo.Contracts.Pools.{PoolCreate, PoolUpdate}
use bonerepo.Store.Rows.{AuditAction, AuditMetadata}
use bonerepo.Store.{World}
use bonerepo.Store.Keeps.{Keeps, keeps_rules}
use bonerepo.Repositories.Keeps.{RepositoriesKeep}
use bonerepo.Services.Audit.{note}
use bonerepo.Services.Projects
use bonerepo.Services.Pools
use bonerepo.Services.TargetPolicies

module _ (P : World → Type 0) (k : RepositoriesKeep P) where
  pub noted :
      (p : AccessClaims) (a : AuditAction) (e : ℕ) (m : Option AuditMetadata)
      → Keeps P (note p a e m)
  unfolding note
  noted p a e m = search k.insert_audit

  pub create_project : (p : AccessClaims) (body : ProjectCreate) → Keeps P (Projects.create p body)
  unfolding Projects.create
  create_project p body = search (keeps_rules, k.insert_project, noted)

  pub require_project : (id : ℕ) → Keeps P (Projects.require id)
  unfolding Projects.require
  require_project id = search (keeps_rules, k.get_project)

  pub update_project :
      (p : AccessClaims) (id : ℕ) (body : ProjectUpdate) → Keeps P (Projects.update p id body)
  unfolding Projects.update
  update_project p id body = search (keeps_rules, k.update_project, noted, require_project)

  pub archive_project : (p : AccessClaims) (id : ℕ) → Keeps P (Projects.archive p id)
  unfolding Projects.archive
  archive_project p id = search (keeps_rules, k.archive_project, noted, require_project)

  pub create_pool : (p : AccessClaims) (body : PoolCreate) → Keeps P (Pools.create p body)
  unfolding Pools.create
  create_pool p body = search (keeps_rules, k.insert_pool, noted)

  pub require_pool : (id : ℕ) → Keeps P (Pools.require id)
  unfolding Pools.require
  require_pool id = search (keeps_rules, k.get_pool)

  pub update_pool :
      (p : AccessClaims) (id : ℕ) (body : PoolUpdate) → Keeps P (Pools.update p id body)
  unfolding Pools.update
  update_pool p id body = search (keeps_rules, k.update_pool, noted, require_pool)

  pub archive_pool : (p : AccessClaims) (id : ℕ) → Keeps P (Pools.archive p id)
  unfolding Pools.archive
  archive_pool p id = search (keeps_rules, k.archive_pool, noted, require_pool)

  lifted : (r : Result PlimsollError (Unit {0})) → Keeps P (TargetPolicies.lifted r)
  unfolding TargetPolicies.lifted
  lifted (ok u) = search keeps_rules
  lifted (err e) = search keeps_rules

  pub replace_policy :
      (p : AccessClaims) (allowlist : List Text) → Keeps P (TargetPolicies.replace p allowlist)
  unfolding TargetPolicies.replace
  replace_policy p allowlist = search (keeps_rules, k.insert_next_version, noted, lifted)

  pub current_policy : Keeps P TargetPolicies.current_policy
  unfolding TargetPolicies.current_policy
  current_policy = search k.current

pub ruleset services_rules = (
  create_project, require_project, update_project, archive_project, create_pool, require_pool,
  update_pool, archive_pool, replace_policy, current_policy,
)
