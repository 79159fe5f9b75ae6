-- ===== src/Api/ReadOnly.antt =====
-- What a role that may only read can do.
use bonerepo.Prelude.{ℕ, ◌≡◌, refl, true, false, Bool-cases, ok, err, Result, ◌⊎◌, inl, inr}
use bonerepo.Prelude.Texts.{codes}
use bonerepo.Tokens.{AccessClaims}
use bonerepo.Permissions.{holds}
use bonerepo.Permissions.Closed.{IsRead, holds_iff}
use bonerepo.Store.{Db, World, Failure, settle, session_for_org}
use bonerepo.Store.Keeps.{Keeps, keeps_rules}
use bonerepo.Store.Rows.{PerformanceTest, GeneratorPool}
use bonerepo.Repositories.Projects as projects_repo
use bonerepo.Repositories.Pools as pools_repo
use bonerepo.Repositories.PerformanceTests as tests_repo
use bonerepo.Repositories.TargetPolicies as policies_repo
use bonerepo.Services.Projects
use bonerepo.Services.Pools
use bonerepo.Services.PerformanceTests as tests
use bonerepo.Services.TargetPolicies
use bonerepo.Api.{
  Request, create_project, get_project, update_project, delete_project, create_pool, get_pool,
  update_pool, delete_pool, create_test, get_test, update_test, delete_test, get_target_policy,
  replace_target_policy, test_response, pool_response, endpoint, permission_of, handle,
}

module _ (d : Db) where
  abbrev Same : World → Type 0
  Same w = w.db ≡ d

  project_read-Keeps : (id : ℕ) → Keeps Same (Projects.require id)
  unfolding Projects.require projects_repo.get
  project_read-Keeps id = search (keeps_rules, got)
    where
      got : Keeps Same (projects_repo.get id)
      got = record { at = λ w h. h }

  pool_read-Keeps : (id : ℕ) → Keeps Same (Pools.require id)
  unfolding Pools.require pools_repo.get
  pool_read-Keeps id = search (keeps_rules, got)
    where
      got : Keeps Same (pools_repo.get id)
      got = record { at = λ w h. h }

  test_read-Keeps : (id : ℕ) → Keeps Same (tests_repo.get id)
  unfolding tests_repo.get
  test_read-Keeps id = record { at = λ w h. h }

  plans_read-Keeps : (id : ℕ) → Keeps Same (tests_repo.plans_for id)
  unfolding tests_repo.plans_for
  plans_read-Keeps id = record { at = λ w h. h }

  rules_read-Keeps : (id : ℕ) → Keeps Same (tests_repo.sla_rules_for id)
  unfolding tests_repo.sla_rules_for
  rules_read-Keeps id = record { at = λ w h. h }

  document-Keeps : (r : PerformanceTest) → Keeps Same (tests.document r)
  unfolding tests.document
  document-Keeps r = search (keeps_rules, plans_read-Keeps, rules_read-Keeps)

  require-Keeps : (id : ℕ) → Keeps Same (tests.require id)
  unfolding tests.require
  require-Keeps id = search (keeps_rules, test_read-Keeps, document-Keeps)

  policy_read-Keeps : Keeps Same TargetPolicies.current_policy
  unfolding TargetPolicies.current_policy policies_repo.current
  policy_read-Keeps = record { at = λ w h. h }

  response-Keeps : (t : tests.TestDocument) → Keeps Same (test_response t)
  unfolding test_response
  response-Keeps t = search keeps_rules

  pool_response-Keeps : (row : GeneratorPool) → Keeps Same (pool_response row)
  unfolding pool_response
  pool_response-Keeps row = search keeps_rules

  read-Keeps :
      (p : AccessClaims) (r : Request) → IsRead (permission_of r) → Keeps Same (endpoint p r)
  unfolding endpoint permission_of
  read-Keeps p (create_project body) k = elim k [ ]
  read-Keeps p (get_project id) k = search (keeps_rules, project_read-Keeps)
  read-Keeps p (update_project id body) k = elim k [ ]
  read-Keeps p (delete_project id) k = elim k [ ]
  read-Keeps p (create_pool body) k = elim k [ ]
  read-Keeps p (get_pool id) k = search (keeps_rules, pool_read-Keeps, pool_response-Keeps)
  read-Keeps p (update_pool id body) k = elim k [ ]
  read-Keeps p (delete_pool id) k = elim k [ ]
  read-Keeps p (create_test project_id body) k = elim k [ ]
  read-Keeps p (get_test id) k = search (keeps_rules, require-Keeps, response-Keeps)
  read-Keeps p (update_test id body) k = elim k [ ]
  read-Keeps p (delete_test id) k = elim k [ ]
  read-Keeps p get_target_policy k = search (keeps_rules, policy_read-Keeps)
  read-Keeps p (replace_target_policy allowlist) k = elim k [ ]

settle-Same :
    {A : Type 0} (w : World) (r : Result Failure A × World)
    → r.1.db ≡ w.db
    → (settle w r).1.db ≡ w.db
unfolding settle
settle-Same w (ok a, w') h = h
settle-Same w (err e, w') h = refl

-- A principal whose role is not ORG_ADMIN changes no row of any table, whatever it requests: the
-- writes are refused by the guard, and the reads only read.
pub handle-read_only :
    (p : AccessClaims) (r : Request) (w : World)
    → ¬ (p.role ≡ codes "ORG_ADMIN")
    → (handle p r w).1.db ≡ w.db
unfolding handle session_for_org
handle-read_only p r w other = guarded (Bool-cases (holds p.role (permission_of r)))
  where
    reads : holds p.role (permission_of r) ≡ true → IsRead (permission_of r)
    reads h = elim ((holds_iff p.role (permission_of r)).0 h) [
      | inl e ↦ elim (other e) [ ]
      | inr e ↦ e.1
    ]

    guarded :
        (holds p.role (permission_of r) ≡ true) ⊎ (holds p.role (permission_of r) ≡ false)
        → (handle p r w).1.db ≡ w.db
    guarded (inl h) = rw h (settle-Same w _ ((read-Keeps w.db p r (reads h)).at _ refl))
    guarded (inr h) = rw h refl
