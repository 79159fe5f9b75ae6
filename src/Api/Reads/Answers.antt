-- ===== src/Api/Reads/Answers.antt =====
-- A read after an update, over the API.
use bonerepo.Store.{
  scope, begin, test_tenant, World, or_raise, ◌>>=◌, pure, settle, session_for_org,
}
use bonerepo.Prelude.{ℕ, ◌≡◌, ◌∙◌, sym, subst, ap, some, ok, true, arith}
use bonerepo.Tokens.{AccessClaims}
use bonerepo.Permissions.{test_read, holds}
use bonerepo.Contracts.Tests.{TestUpdate}
use bonerepo.Store.Rows.{PerformanceTest}
use bonerepo.Store.Table.{by_id}
use bonerepo.Store.Results.{bind-Ran, or_raise-ok}
use bonerepo.Repositories.PerformanceTests as repo
use bonerepo.Services.PerformanceTests as tests
use bonerepo.Api.{
  Request, Reply, update_test, get_test, test_response, endpoint, permission_of, handle,
}
use bonerepo.Api.Versions.Keyed.{WellKept}
use bonerepo.Api.Versions.Updates.{handle-Committed}
use bonerepo.Api.Reads.Updated.{update-Stored}

-- Reading a stored row gives its document.
require-found :
    (id : ℕ) (row : PerformanceTest) (t : tests.TestDocument) (w : World)
    → by_id w.org id w.db.performance_tests ≡ some row
    → tests.document row w ≡ (ok t, w)
    → tests.require id w ≡ (ok t, w)
unfolding tests.require repo.get ◌>>=◌ or_raise
require-found id row t w h k = rw h k

get_test-found :
    (q : AccessClaims) (id : ℕ) (row : PerformanceTest) (t : tests.TestDocument) (reply : Reply)
    (w : World)
    → by_id w.org id w.db.performance_tests ≡ some row
    → tests.document row w ≡ (ok t, w)
    → test_response t w ≡ (ok reply, w)
    → endpoint q (get_test id) w ≡ (ok reply, w)
unfolding endpoint ◌>>=◌
get_test-found q id row t reply w h k a = rw (require-found id row t w h k) a

response-reads :
    (t : tests.TestDocument) (w : World) (reply : Reply) (w' : World)
    → test_response t w ≡ (ok reply, w')
    → w ≡ w'
unfolding test_response pure
response-reads t w reply w' h =
    let r = bind-Ran _ _ w reply w' h in
    let got = or_raise-ok _ t.row.configuration w r.value r.world r.started in
    ground (arith, got.1, r.continued)

-- What the endpoint of an update leaves is what the endpoint of a read answers with.
endpoint-read :
    (p q : AccessClaims) (id : ℕ) (c : TestUpdate) (w : World) (reply : Reply) (w' : World)
    → WellKept w.drawn w.db.performance_tests
    → endpoint p (update_test id c) w ≡ (ok reply, w')
    → (endpoint q (get_test id) w' ≡ (ok reply, w')) × (w'.org ≡ w.org)
unfolding endpoint
endpoint-read p q id c w reply w' k h =
    let r = bind-Ran _ _ w reply w' h in
    let same = response-reads r.value r.world reply w' r.continued in
    let s = update-Stored p id c w r.value r.world k r.started in
    let read =
      get_test-found q id s.0 r.value reply r.world s.2 s.1
        (subst (λ x. test_response r.value r.world ≡ (ok reply, x)) (sym same) r.continued) in
    (
      subst (λ x. endpoint q (get_test id) x ≡ (ok reply, x)) same read,
      ap (λ x. x.org) (sym same) ∙ s.3,
    )

pub handle-runs :
    (q : AccessClaims) (r : Request) (w w' : World) (reply : Reply)
    → holds q.role (permission_of r) ≡ true
    → endpoint q r (scope (some q.organization_id) (begin w)) ≡ (ok reply, w')
    → (handle q r w).0 ≡ ok reply
unfolding handle session_for_org settle
handle-runs q r w w' reply may h = ground (arith, may, h)

-- In a table whose identifiers are a primary key, when an update of a performance test has
-- succeeded, every principal of the same organisation who may read tests is answered the same
-- document: the fields, the version, the plans and the SLA rules.
pub handle-read_updated :
    (p q : AccessClaims) (id : ℕ) (c : TestUpdate) (w : World) (reply : Reply)
    → WellKept w.drawn w.db.performance_tests
    → (handle p (update_test id c) w).0 ≡ ok reply
    → q.organization_id ≡ p.organization_id
    → holds q.role test_read ≡ true
    → (handle q (get_test id) (handle p (update_test id c) w).1).0 ≡ ok reply
unfolding permission_of
handle-read_updated p q id c w reply k h same may =
    let done = handle-Committed p (update_test id c) w reply h in
    let read =
      endpoint-read p q id c (scope (some p.organization_id) (begin w)) reply done.after k
        done.ran in
    let bound : done.after
        ≡ scope (some q.organization_id) (begin (handle p (update_test id c) w).1) =
      ground (arith, done.left, same, read.1) in
    handle-runs q (get_test id) _ done.after reply may
      (subst (λ x. endpoint q (get_test id) x ≡ (ok reply, done.after)) bound read.0)
