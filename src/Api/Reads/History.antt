-- ===== src/Api/Reads/History.antt =====
-- A PUT and a GET of the target policy.
use bonerepo.Prelude.{ℕ, ◌+◌, ◌≡◌, refl, subst, Option, some, ok, true, List, arith}
use bonerepo.Prelude.Texts.{Text}
use bonerepo.Tokens.{AccessClaims}
use bonerepo.Permissions.{project_read, holds}
use bonerepo.Store.Rows.{TargetPolicy}
use bonerepo.Store.{scope, begin, World, ◌>>=◌, pure}
use bonerepo.Store.Results.{bind-Ran}
use bonerepo.Repositories.TargetPolicies as repo
use bonerepo.Services.TargetPolicies as policies
use bonerepo.Api.{
  Reply, target_policy, get_target_policy, replace_target_policy, policy_response, endpoint,
  permission_of, handle,
}
use bonerepo.Api.Versions.Updates.{handle-Committed}
use bonerepo.Api.Reads.Answers.{handle-runs}
use bonerepo.Api.Reads.Policy.{InForce, replace-InForce}

get-InForce :
    (q : AccessClaims) (o : Option ℕ) (row : TargetPolicy) (w : World)
    → InForce o row w
    → endpoint q get_target_policy w ≡ (ok (policy_response (some row)), w)
unfolding endpoint policies.current_policy repo.current ◌>>=◌ pure
get-InForce q o row w h = rw h.newest refl

put-InForce :
    (p : AccessClaims) (es : List Text) (w : World) (reply : Reply) (w' : World)
    → endpoint p (replace_target_policy es) w ≡ (ok reply, w')
    → (row : TargetPolicy) × (reply ≡ policy_response (some row))
      × (row.version ≡ repo.version_of (repo.current_row w) + 1)
      × (row.allowlist ≡ es)
      × InForce w.org row w'
unfolding endpoint pure
put-InForce p es w reply w' h =
    let r = bind-Ran _ _ w reply w' h in
    let stored = replace-InForce p es w r.value r.world r.started in
    (
      r.value,
      ground (arith, r.continued),
      stored.0,
      stored.1,
      ground (arith, stored.2, r.continued),
    )

-- When a PUT of the target policy has succeeded, the answer has the allowlist that was sent and
-- the version that follows the newest one that the organisation had, and every principal of the
-- organisation who may read projects is answered the same by the GET.
pub handle-read_policy :
    (p q : AccessClaims) (es : List Text) (w : World) (reply : Reply)
    → (handle p (replace_target_policy es) w).0 ≡ ok reply
    → q.organization_id ≡ p.organization_id
    → holds q.role project_read ≡ true
    → ((at : Option ℕ) × (reply
          ≡ target_policy
              (repo.version_of (repo.current_row (record w { org = some p.organization_id })) + 1)
              es
              at))
      × ((handle q get_target_policy (handle p (replace_target_policy es) w).1).0 ≡ ok reply)
unfolding permission_of policy_response repo.current_row
handle-read_policy p q es w reply h same may =
    let done = handle-Committed p (replace_target_policy es) w reply h in
    let put =
      put-InForce p es (scope (some p.organization_id) (begin w)) reply done.after done.ran in
    let row = put.0 in
    let read = get-InForce q _ row done.after put.4 in
    let bound : done.after
        ≡ scope (some q.organization_id) (begin (handle p (replace_target_policy es) w).1) =
      ground (arith, done.left, same, put.4.setting) in
    (
      (some row.created_at, ground (arith, put.1, put.2, put.3)),
      handle-runs q get_target_policy _ done.after reply may (
          subst (λ x. endpoint q get_target_policy x ≡ (ok reply, done.after)) bound
            (ground (arith, read, put.1))),
    )
