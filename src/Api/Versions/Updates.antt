-- ===== src/Api/Versions/Updates.antt =====
-- No update is lost.
use bonerepo.Prelude.{
  ℕ, ◌≡◌, refl, subst, sym, some, List, ok, err, Result, Bool-cases, inl, inr, arith,
}
use bonerepo.Tokens.{AccessClaims}
use bonerepo.Permissions.{holds}
use bonerepo.Contracts.Tests.{TestUpdate}
use bonerepo.Store.{World, Failure, scope, begin, commit, settle, session_for_org, pure}
use bonerepo.Store.Results.{bind-Ran, or_raise-ok}
use bonerepo.Services.PerformanceTests as tests
use bonerepo.Api.{Request, Reply, update_test, test_response, endpoint, permission_of, handle}
use bonerepo.Api.Versions.Stable.{Holds}
use bonerepo.Api.Versions.Keyed.{WellKept, Past, Past-Stable}
use bonerepo.Api.Versions.Lock.{update-Past, update-stale}
use bonerepo.Api.Versions.Requests.{run, run-Stable}

-- A request that returned ran its endpoint to the end, and committed what it left.
pub record Committed (p : AccessClaims) (r : Request) (w : World) (reply : Reply) : Type 0 where
  pub after : World
  pub ran : endpoint p r (scope (some p.organization_id) (begin w)) ≡ (ok reply, after)
  pub left : (handle p r w).1 ≡ commit after

settle-ok :
    {A : Type 0} (w : World) (r : Result Failure A × World) (a : A)
    → (settle w r).0 ≡ ok a
    → (r ≡ (ok a, r.1)) × ((settle w r).1 ≡ commit r.1)
unfolding settle
settle-ok w (ok b, w') a h = (cc, refl)
settle-ok w (err e, w') a h = cc

pub handle-Committed :
    (p : AccessClaims) (r : Request) (w : World) (reply : Reply)
    → (handle p r w).0 ≡ ok reply
    → Committed p r w reply
unfolding handle session_for_org
handle-Committed p r w reply h = elim (Bool-cases (holds p.role (permission_of r))) [
  | inl e ↦
      let done =
        settle-ok w (endpoint p r (scope (some p.organization_id) (begin w))) reply
          (ground (arith, h, e)) in
      record { after = _; ran = done.0; left = ground (arith, e, done.1) }
  | inr e ↦ cc
]

-- What an update that was answered did before the response was made.
update_ran :
    (p : AccessClaims) (id : ℕ) (c : TestUpdate) (w : World) (reply : Reply) (w' : World)
    → endpoint p (update_test id c) w ≡ (ok reply, w')
    → (t : tests.TestDocument) × (tests.update p id c w ≡ (ok t, w'))
unfolding endpoint test_response pure
update_ran p id c w reply w' h =
    let r1 = bind-Ran _ _ w reply w' h in
    let r2 = bind-Ran _ _ r1.world reply w' r1.continued in
    let got = or_raise-ok _ r1.value.row.configuration r1.world r2.value r2.world r2.started in
    (r1.value, ground (arith, r1.started, got.1, r2.continued))

committed-Past :
    (p : AccessClaims) (id : ℕ) (c : TestUpdate) (w : World) (reply : Reply)
    → Holds WellKept w
    → (handle p (update_test id c) w).0 ≡ ok reply
    → Holds (Past id c.version) (handle p (update_test id c) w).1
committed-Past p id c w reply k h =
    let done = handle-Committed p (update_test id c) w reply h in
    let ran = update_ran p id c _ reply done.after done.ran in
    let past =
      update-Past p id c (scope (some p.organization_id) (begin w)) ran.0 done.after k ran.1 in
    subst (Holds (Past id c.version)) (sym done.left) past

committed-stale :
    (p : AccessClaims) (id : ℕ) (c : TestUpdate) (v : ℕ) (w : World) (reply : Reply)
    → Holds (Past id v) w
    → c.version ≡ v
    → ¬ ((handle p (update_test id c) w).0 ≡ ok reply)
committed-stale p id c v w reply past e h =
    let done = handle-Committed p (update_test id c) w reply h in
    let ran = update_ran p id c _ reply done.after done.ran in
    update-stale p id c v (scope (some p.organization_id) (begin w)) ran.0 done.after past e ran.1

-- In a table whose identifiers are a primary key, once an update of a document has succeeded,
-- no other update that carries the same version succeeds: not right after it, not after any sequence
-- of requests by any principals in between, for the version never comes back.
pub handle-no_lost_update :
    (p q : AccessClaims) (id : ℕ) (a b : TestUpdate) (between : List (AccessClaims × Request))
    (w : World) (first second : Reply)
    → WellKept w.drawn w.db.performance_tests
    → (handle p (update_test id a) w).0 ≡ ok first
    → b.version ≡ a.version
    → ¬ (
        (handle q (update_test id b) (run between (handle p (update_test id a) w).1)).0 ≡ ok second)
handle-no_lost_update p q id a b between w first second k h e =
    let past = committed-Past p id a w first k h in
    committed-stale q id b a.version _ second
      (run-Stable (Past id a.version) (Past-Stable id a.version) between _ past) e
