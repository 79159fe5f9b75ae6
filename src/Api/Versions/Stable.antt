-- ===== src/Api/Versions/Stable.antt =====
-- A property of the performance tests and of the identifiers drawn, kept by every action of the
-- services if it is kept by drawing, by inserting a row under a fresh identifier, and by the two
-- UPDATE statements.
use bonerepo.Store.{pool_tenant, project_tenant, test_tenant, World, draw}
use bonerepo.Prelude.{ℕ, suc, ◌≤◌, ◌≡◌, Option, none, some, List, Bool, arith}
use bonerepo.Prelude.Texts.{Text}
use bonerepo.Contracts.Projects.{ProjectCreate, ProjectUpdate}
use bonerepo.Contracts.Pools.{PoolCreate, PoolUpdate}
use bonerepo.Contracts.Tests.{TestUpdate}
use bonerepo.Store.Rows.{
  Project, GeneratorPool, AuditLog, AuditAction, AuditMetadata, PerformanceTest, TargetPolicy,
}
use bonerepo.Store.Table.{by_id, update_where, insert_row}
use bonerepo.Store.Keeps.{Keeps, keeps_rules}
use bonerepo.Repositories.Audit
use bonerepo.Repositories.Projects as projects
use bonerepo.Repositories.Pools as pools
use bonerepo.Repositories.PerformanceTests as tests
use bonerepo.Repositories.TargetPolicies as policies

abbrev pub Holds : (ℕ → List PerformanceTest → Type 0) → World → Type 0
Holds P w = P w.drawn w.db.performance_tests

pub record Stable (P : ℕ → List PerformanceTest → Type 0) : Type 0 where
  pub more : (n m : ℕ) (rows : List PerformanceTest) → n ≤ m → P n rows → P m rows
  pub insert :
      (n : ℕ) (rows : List PerformanceTest) (r : PerformanceTest)
      → r.id ≡ n
      → P n rows
      → P (suc n) (insert_row r rows)
  pub update :
      (n : ℕ) (rows : List PerformanceTest) (org : Option ℕ) (id : ℕ) (c : TestUpdate) (now : ℕ)
      → P n rows
      → P n (update_where org (tests.at_version id c.version) (tests.apply c now) rows)
  pub archive :
      (n : ℕ) (rows : List PerformanceTest) (org : Option ℕ) (p : PerformanceTest → Bool) (now : ℕ)
      → P n rows
      → P n (update_where org p (tests.mark_archived now) rows)

module _ (P : ℕ → List PerformanceTest → Type 0) (s : Stable P) where
  pub drawing : Keeps (Holds P) draw
  unfolding draw
  drawing = record { at = λ w h. s.more w.drawn (suc w.drawn) _ (omega arith) h }

  pub store_audit : (r : AuditLog) → Keeps (Holds P) (Audit.store r)
  unfolding Audit.store
  store_audit r = record { at = λ w h. ground arith }

  pub insert_audit :
      (org : ℕ) (user : Option ℕ) (a : AuditAction) (e : Option ℕ) (m : Option AuditMetadata)
      → Keeps (Holds P) (Audit.insert org user a e m)
  unfolding Audit.insert
  insert_audit org user a e m = search (keeps_rules, store_audit, drawing)

  pub store_project : (r : Project) → Keeps (Holds P) (projects.store r)
  unfolding projects.store
  store_project r = record { at = λ w h. ground arith }

  pub update_project_found :
      (id : ℕ) (c : ProjectUpdate) (found : Option Project)
      → Keeps (Holds P) (projects.update_found id c found)
  unfolding projects.update_found
  update_project_found id c none = record { at = λ w h. h }
  update_project_found id c (some r) = record { at = λ w h. ground arith }

  pub archive_project_found :
      (id : ℕ) (found : Option Project) → Keeps (Holds P) (projects.archive_found id found)
  unfolding projects.archive_found
  archive_project_found id none = record { at = λ w h. h }
  archive_project_found id (some r) = record { at = λ w h. ground arith }

  pub store_pool : (r : GeneratorPool) → Keeps (Holds P) (pools.store r)
  unfolding pools.store
  store_pool r = record { at = λ w h. ground arith }

  pub update_pool_found :
      (id : ℕ) (c : PoolUpdate) (found : Option GeneratorPool)
      → Keeps (Holds P) (pools.update_found id c found)
  unfolding pools.update_found
  update_pool_found id c none = record { at = λ w h. h }
  update_pool_found id c (some r) = record { at = λ w h. ground arith }

  pub archive_pool_found :
      (id : ℕ) (found : Option GeneratorPool) → Keeps (Holds P) (pools.archive_found id found)
  unfolding pools.archive_found
  archive_pool_found id none = record { at = λ w h. h }
  archive_pool_found id (some r) = record { at = λ w h. ground arith }

  pub store_policy : (r : TargetPolicy) → Keeps (Holds P) (policies.store r)
  unfolding policies.store
  store_policy r = record { at = λ w h. ground arith }

  pub get_project : (id : ℕ) → Keeps (Holds P) (projects.get id)
  unfolding projects.get
  get_project id = record { at = λ w h. h }

  pub update_project : (id : ℕ) (c : ProjectUpdate) → Keeps (Holds P) (projects.update id c)
  unfolding projects.update
  update_project id c = record {
    at = λ w h. (update_project_found id c (by_id w.org id w.db.projects)).at w h;
  }

  pub archive_project : (id : ℕ) → Keeps (Holds P) (projects.archive id)
  unfolding projects.archive
  archive_project id = record {
    at = λ w h. (archive_project_found id (by_id w.org id w.db.projects)).at w h;
  }

  pub insert_project :
      (org user : ℕ) (body : ProjectCreate) → Keeps (Holds P) (projects.insert org user body)
  unfolding projects.insert
  insert_project org user body = search (keeps_rules, store_project, drawing)

  pub get_pool : (id : ℕ) → Keeps (Holds P) (pools.get id)
  unfolding pools.get
  get_pool id = record { at = λ w h. h }

  pub update_pool : (id : ℕ) (c : PoolUpdate) → Keeps (Holds P) (pools.update id c)
  unfolding pools.update
  update_pool id c = record {
    at = λ w h. (update_pool_found id c (by_id w.org id w.db.pools)).at w h;
  }

  pub archive_pool : (id : ℕ) → Keeps (Holds P) (pools.archive id)
  unfolding pools.archive
  archive_pool id = record {
    at = λ w h. (archive_pool_found id (by_id w.org id w.db.pools)).at w h;
  }

  pub insert_pool : (org : ℕ) (body : PoolCreate) → Keeps (Holds P) (pools.insert org body)
  unfolding pools.insert
  insert_pool org body = search (keeps_rules, store_pool, drawing)

  pub current : Keeps (Holds P) policies.current
  unfolding policies.current
  current = record { at = λ w h. h }

  pub insert_next_version :
      (org user : ℕ) (allowlist : List Text)
      → Keeps (Holds P) (policies.insert_next_version org user allowlist)
  unfolding policies.insert_next_version
  insert_next_version org user allowlist = search (keeps_rules, store_policy, current, drawing)

pub ruleset other_tables = (
  insert_audit, get_project, update_project, archive_project, insert_project, get_pool, update_pool,
  archive_pool, insert_pool, current, insert_next_version,
)
