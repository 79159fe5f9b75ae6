-- ===== src/Services/TargetPolicies.antt =====
-- The stored policy: `current_policy` and `replace` of services/target_policy.py, and the GET of
-- routers/target_policy.py.
use bonerepo.Store.{◌>>=◌, ◌>>◌, Exec, plimsoll, pure, raise}
use bonerepo.Prelude.{Option, none, some, List, [], ok, err, Result, length}
use bonerepo.Prelude.Texts.{Text}
use bonerepo.Errors.{PlimsollError}
use bonerepo.Tokens.{AccessClaims}
use bonerepo.Store.Rows.{TargetPolicy, target_policy_updated, version_and_entries}
use bonerepo.TargetPolicy as policy
use bonerepo.Repositories.TargetPolicies as repo
use bonerepo.Services.Audit.{note}

unfoldable pub lifted : Result PlimsollError (Unit {0}) → Exec (Unit {0})
lifted (ok u) = pure tt
lifted (err e) = raise (plimsoll e)

unfoldable pub replace : AccessClaims → List Text → Exec TargetPolicy
replace principal allowlist = do
  lifted (policy.validate_entries allowlist)
  row ← repo.insert_next_version principal.organization_id principal.user_id allowlist
  note principal target_policy_updated row.id
      (some (version_and_entries row.version (length allowlist)))
  pure row

unfoldable pub current_policy : Exec (Option TargetPolicy)
current_policy = repo.current

-- `list(policy.allowlist) if policy is not None else []`
unfoldable pub allowlist_of : Option TargetPolicy → List Text
allowlist_of none = []
allowlist_of (some row) = row.allowlist
