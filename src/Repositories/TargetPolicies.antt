-- ===== src/Repositories/TargetPolicies.antt =====
-- repositories/target_policy.py
use bonerepo.Store.{target_policy_tenant, ◌>>=◌, World, Exec, policy, integrity, draw, current_time}
use bonerepo.Prelude.{
  ℕ, ◌+◌, Bool, true, Option, some, none, ok, err, List, [], ◌∷◌, ltb, ◌==◌, ◌&&◌, if◌then◌else◌,
}
use bonerepo.Prelude.Texts.{Text}
use bonerepo.Store.Rows.{TargetPolicy}
use bonerepo.Store.Table.{visible, select, insert_row, taken}

unfoldable pub newer : TargetPolicy → Option TargetPolicy → TargetPolicy
newer r none = r
newer r (some s) = if ltb r.version s.version then s else r

-- ORDER BY version DESC LIMIT 1
unfoldable pub newest : List TargetPolicy → Option TargetPolicy
unfolding newer
newest [] = none
newest (r ∷ rows) = some (newer r (newest rows))

unfoldable pub current_row : World → Option TargetPolicy
unfolding newest
current_row w = newest (select w.org (λ r. true) w.db.target_policies)

unfoldable pub current : Exec (Option TargetPolicy)
current w = (ok (current_row w), w)

unfoldable pub version_of : Option TargetPolicy → ℕ
version_of none = 0
version_of (some r) = r.version

-- UNIQUE (organization_id, version)
unfoldable pub same_version : TargetPolicy → TargetPolicy → Bool
same_version r s = s.organization_id == r.organization_id && s.version == r.version

unfoldable pub put : List TargetPolicy → World → World
put rows w = record w { db = record w.db { target_policies = rows } }

unfoldable pub store : TargetPolicy → Exec TargetPolicy
unfolding same_version put
store r w =
    if visible w.org r
    then if taken (same_version r) w.db.target_policies
      then (err integrity, w)
      else (ok r, put (insert_row r w.db.target_policies) w)
    else (err policy, w)

-- COALESCE(MAX(version), 0) + 1 over the rows that the organisation sees
unfoldable pub insert_next_version : ℕ → ℕ → List Text → Exec TargetPolicy
insert_next_version org_id created_by allowlist = do
  fresh ← draw
  now ← current_time
  last ← current
  store (record {
    id = fresh;
    organization_id = org_id;
    version = version_of last + 1;
    allowlist = allowlist;
    created_by = some created_by;
    created_at = now;
  })
