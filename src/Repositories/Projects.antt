-- ===== src/Repositories/Projects.antt =====
-- repositories/projects.py
use bonerepo.Pagination as paging
use bonerepo.Store.{project_tenant, ◌>>=◌, World, Exec, policy, integrity, draw, current_time}
use bonerepo.Prelude.{
  ℕ, Bool, true, false, not, ◌&&◌, ◌||◌, Option, some, none, ok, err, List, ◌==◌, if◌then◌else◌,
}
use bonerepo.Prelude.Texts.{text_eq}
use bonerepo.Contracts.Projects.{ProjectCreate, ProjectUpdate}
use bonerepo.Contracts.Updates.{is_null, set_required, set_nullable}
use bonerepo.Store.Rows.{Project, RowStatus, active, archived}
use bonerepo.Store.Table.{visible, by_id, update_where, insert_row, taken}

-- UNIQUE (organization_id, project_key)
unfoldable pub same_key : Project → Project → Bool
same_key r s = s.organization_id == r.organization_id && text_eq s.project_key r.project_key

unfoldable pub put : List Project → World → World
put rows w = record w { db = record w.db { projects = rows } }

unfoldable pub store : Project → Exec Project
unfolding same_key put
store r w =
    if visible w.org r
    then if taken (same_key r) w.db.projects
      then (err integrity, w)
      else (ok r, put (insert_row r w.db.projects) w)
    else (err policy, w)

unfoldable pub insert : ℕ → ℕ → ProjectCreate → Exec Project
insert org_id created_by body = do
  fresh ← draw
  now ← current_time
  store (record {
    id = fresh;
    organization_id = org_id;
    name = body.name;
    project_key = body.project_key;
    description = body.description;
    environment = body.environment;
    status = active;
    tags = body.tags;
    created_by = some created_by;
    created_at = now;
    updated_at = now;
  })

unfoldable pub get : ℕ → Exec (Option Project)
get project_id w = (ok (by_id w.org project_id w.db.projects), w)

-- A null for a column that is NOT NULL.
unfoldable pub nulls_required : ProjectUpdate → Bool
unfolding is_null
nulls_required c = is_null c.name || is_null c.tags

unfoldable pub apply : ProjectUpdate → ℕ → Project → Project
unfolding set_required set_nullable
apply c now r = record r {
  name = set_required c.name r.name;
  description = set_nullable c.description r.description;
  environment = set_nullable c.environment r.environment;
  tags = set_required c.tags r.tags;
  updated_at = now;
}

-- UPDATE ... WHERE id = :id RETURNING
unfoldable pub update_found : ℕ → ProjectUpdate → Option Project → Exec (Option Project)
unfolding apply nulls_required put
update_found project_id c none w = (ok none, w)
update_found project_id c (some r) w = if nulls_required c then (err integrity, w) else (
  ok (some (apply c w.now r)),
  put (update_where w.org (λ s. s.id == project_id) (apply c w.now) w.db.projects) w,
)

unfoldable pub update : ℕ → ProjectUpdate → Exec (Option Project)
unfolding update_found
update project_id c w = update_found project_id c (by_id w.org project_id w.db.projects) w

unfoldable pub is_archived : RowStatus → Bool
is_archived archived = true
is_archived _ = false

unfoldable pub mark_archived : ℕ → Project → Project
mark_archived now r = record r { status = archived; updated_at = now }

-- UPDATE ... SET status = 'ARCHIVED' WHERE id = :id AND status <> 'ARCHIVED' RETURNING id
unfoldable pub archive_found : ℕ → Option Project → Exec Bool
unfolding is_archived mark_archived put
archive_found project_id none w = (ok false, w)
archive_found project_id (some r) w = if is_archived r.status then (ok false, w) else (
  ok true,
  put
      (update_where w.org (λ s. s.id == project_id && not (is_archived s.status))
        (mark_archived w.now) w.db.projects)
      w,
)

unfoldable pub archive : ℕ → Exec Bool
unfolding archive_found
archive project_id w = archive_found project_id (by_id w.org project_id w.db.projects) w

unfoldable pub list_page : ℕ → Option paging.Position → Exec (List Project)
unfolding paging.list_page
list_page limit after w = (
  ok (paging.list_page (λ (r : Project). r.created_at) w.org (λ r. true) limit after w.db.projects),
  w,
)
