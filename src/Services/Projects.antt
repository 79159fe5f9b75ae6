-- ===== src/Services/Projects.antt =====
-- services/projects.py
use bonerepo.Store.{◌>>◌, ◌>>=◌, Exec, plimsoll, pure, or_raise, on_integrity}
use bonerepo.Prelude.{ℕ, Option, none, some, if◌then◌else◌}
use bonerepo.Tokens.{AccessClaims}
use bonerepo.Contracts.Errors.{not_found, conflict}
use bonerepo.Contracts.Projects.{ProjectCreate, ProjectUpdate, no_changes, changed_fields}
use bonerepo.Store.Rows.{
  Project, project_created, project_updated, project_deleted, project_key, fields,
}
use bonerepo.Repositories.Projects as repo
use bonerepo.Services.Audit.{note}

unfoldable pub create : AccessClaims → ProjectCreate → Exec Project
create principal body = do
  row ←
      on_integrity (plimsoll (record { code = conflict; details = none }))
        (repo.insert principal.organization_id principal.user_id body)
  note principal project_created row.id (some (project_key body.project_key))
  pure row

unfoldable pub require : ℕ → Exec Project
require project_id = do
  found ← repo.get project_id
  or_raise (plimsoll (record { code = not_found; details = none })) found

unfoldable pub update : AccessClaims → ℕ → ProjectUpdate → Exec (Option Project)
update principal project_id body = do
  current ← require project_id
  if no_changes body then pure (some current) else do
    row ← repo.update project_id body
    note principal project_updated project_id (some (fields (changed_fields body)))
    pure row

unfoldable pub archive : AccessClaims → ℕ → Exec (Unit {0})
archive principal project_id = do
  current ← require project_id
  done ← repo.archive project_id
  if done then note principal project_deleted project_id none else pure tt
