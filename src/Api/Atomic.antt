-- ===== src/Api/Atomic.antt =====
-- The setting that a request leaves on its connection.
use bonerepo.Prelude.{◌≡◌, refl, some, err, Bool, true, false, if◌then◌else◌}
use bonerepo.Tokens.{AccessClaims}
use bonerepo.Permissions.{holds}
use bonerepo.Store.{World, Failure, session_for_org}
use bonerepo.Store.Confined.{session_for_org-org}
use bonerepo.Api.{Request, handle, endpoint, permission_of}
use bonerepo.Api.Isolation.{endpoint-Confined}

-- The setting `app.current_org_id` never outlives a request: after it, whether it returned or
-- raised, the connection has the setting that it had before.
pub handle-org : (p : AccessClaims) (r : Request) (w : World) → (handle p r w).1.org ≡ w.org
unfolding handle
handle-org p r w = guarded (holds p.role (permission_of r)) _
  where
    guarded :
        (b : Bool) (f : Failure)
        → (if b
            then session_for_org (some p.organization_id) (endpoint p r) w
            else (err f, w)).1.org
          ≡ w.org
    guarded true f = session_for_org-org p.organization_id (endpoint p r) w (endpoint-Confined p r)
    guarded false f = refl
