-- ===== src/Api/Versions/Requests.antt =====
-- Every request keeps a stable property of the performance tests.
use bonerepo.Prelude.{
  ℕ, ◌≤◌, some, List, [], ◌∷◌, ok, err, Result, Bool, true, false, if◌then◌else◌, arith,
}
use bonerepo.Tokens.{AccessClaims}
use bonerepo.Permissions.{holds}
use bonerepo.Store.Rows.{PerformanceTest}
use bonerepo.Store.{World, Failure, scope, begin, settle, session_for_org}
use bonerepo.Repositories.Keeps.{RepositoriesKeep}
use bonerepo.Api.{Request, handle, endpoint, permission_of}
use bonerepo.Api.Keeps.{endpoint-Keeps}
use bonerepo.Api.Versions.Stable.{Stable, Holds, other_tables}
use bonerepo.Api.Versions.Documents.{test_tables}

pub repositories-Stable :
    (P : ℕ → List PerformanceTest → Type 0) → Stable P → RepositoriesKeep (Holds P)
repositories-Stable P s = record {
  insert_audit = search other_tables;
  insert_project = search other_tables;
  get_project = search other_tables;
  update_project = search other_tables;
  archive_project = search other_tables;
  insert_pool = search other_tables;
  get_pool = search other_tables;
  update_pool = search other_tables;
  archive_pool = search other_tables;
  current = search other_tables;
  insert_next_version = search other_tables;
  insert_test = search test_tables;
  get_test = search test_tables;
  update_test = search test_tables;
  archive_test = search test_tables;
  replace_plans = search test_tables;
  replace_rules = search test_tables;
  plans_for = search test_tables;
  rules_for = search test_tables;
}

-- The identifiers drawn are never drawn again, even if the transaction is rolled back.
drawn-Stable : (n : ℕ) → Stable (λ m rows. n ≤ m)
drawn-Stable n = record {
  more = λ m k rows le h. omega arith;
  insert = λ m rows r e h. omega arith;
  update = λ m rows org id c now h. h;
  archive = λ m rows org p now h. h;
}

module _ (P : ℕ → List PerformanceTest → Type 0) (s : Stable P) where
  settle-Stable :
      {A : Type 0} (w : World) (r : Result Failure A × World)
      → Holds P w
      → Holds P r.1
      → w.drawn ≤ r.1.drawn
      → Holds P (settle w r).1
  unfolding settle
  settle-Stable w (ok a, w') before after le = after
  settle-Stable w (err e, w') before after le =
      s.more w.drawn w'.drawn w.db.performance_tests le before

  pub handle-Stable :
      (p : AccessClaims) (r : Request) (w : World) → Holds P w → Holds P (handle p r w).1
  unfolding handle session_for_org
  handle-Stable p r w h = guarded (holds p.role (permission_of r)) _
    where
      bound : World
      bound = scope (some p.organization_id) (begin w)

      guarded :
          (b : Bool) (e : Failure)
          → Holds P
              (if b
                then session_for_org (some p.organization_id) (endpoint p r) w
                else (err e, w)).1
      guarded true e =
          settle-Stable w (endpoint p r bound) h
            ((endpoint-Keeps (Holds P) (repositories-Stable P s) p r).at bound h)
            ((endpoint-Keeps (Holds (λ m rows. w.drawn ≤ m))
                (repositories-Stable _ (drawn-Stable w.drawn)) p r).at
              bound (omega arith))
      guarded false e = h

-- A sequence of requests, each of some principal.
unfoldable pub run : List (AccessClaims × Request) → World → World
run [] w = w
run ((p, r) ∷ rest) w = run rest (handle p r w).1

pub run-Stable :
    (P : ℕ → List PerformanceTest → Type 0)
    → Stable P
    → (requests : List (AccessClaims × Request)) (w : World) → Holds P w
    → Holds P (run requests w)
unfolding run
run-Stable P s [] w h = h
run-Stable P s ((p, r) ∷ rest) w h =
    run-Stable P s rest (handle p r w).1 (handle-Stable P s p r w h)
