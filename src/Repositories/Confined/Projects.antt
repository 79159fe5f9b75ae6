-- ===== src/Repositories/Confined/Projects.antt =====
-- repositories/projects.py and audit.py stay inside the organisation.
use bonerepo.Store.{audit_log_tenant, project_tenant, Db}
use bonerepo.Prelude.{ℕ, ◌≡◌, refl, Option, none, some, arith, not, ◌&&◌, ◌==◌}
use bonerepo.Store.Rows.{Project, AuditLog, AuditAction, AuditMetadata}
use bonerepo.Store.Table.{by_id}
use bonerepo.Store.Table.Outside.{outside-insert_row, outside-update_where}
use bonerepo.Store.Keeps.{Keeps, keeps_rules}
use bonerepo.Store.Confined.{Inside, Inside-draw}
use bonerepo.Contracts.Projects.{ProjectCreate, ProjectUpdate}
use bonerepo.Repositories.Audit
use bonerepo.Repositories.Projects as repo

module _ (o : ℕ) (s : Option ℕ) (d : Db) where
  store_audit : (r : AuditLog) → Keeps (Inside o s d) (Audit.store r)
  unfolding Audit.store
  store_audit r = record {
    at = λ w h. ground (arith, outside-insert_row (some o) r w.db.audit_logs);
  }

  pub insert_audit :
      (org : ℕ) (user : Option ℕ) (a : AuditAction) (e : Option ℕ) (m : Option AuditMetadata)
      → Keeps (Inside o s d) (Audit.insert org user a e m)
  unfolding Audit.insert
  insert_audit org user a e m = search (keeps_rules, store_audit, Inside-draw)

  store_project : (r : Project) → Keeps (Inside o s d) (repo.store r)
  unfolding repo.store
  store_project r = record {
    at = λ w h. ground (arith, outside-insert_row (some o) r w.db.projects);
  }

  pub insert_project :
      (org user : ℕ) (body : ProjectCreate) → Keeps (Inside o s d) (repo.insert org user body)
  unfolding repo.insert
  insert_project org user body = search (keeps_rules, store_project, Inside-draw)

  pub get_project : (id : ℕ) → Keeps (Inside o s d) (repo.get id)
  unfolding repo.get
  get_project id = record { at = λ w h. h }

  apply-same_org :
      (c : ProjectUpdate) (now : ℕ) (r : Project)
      → (repo.apply c now r).organization_id ≡ r.organization_id
  unfolding repo.apply
  apply-same_org c now r = refl

  updated_project :
      (id : ℕ) (c : ProjectUpdate) (found : Option Project)
      → Keeps (Inside o s d) (repo.update_found id c found)
  unfolding repo.update_found
  updated_project id c none = record { at = λ w h. h }
  updated_project id c (some r) = record {
    at = λ w h. ground (
      arith,
      outside-update_where (some o) (λ s. s.id == id) (repo.apply c w.now) w.db.projects
          (apply-same_org c w.now),
    );
  }

  pub update_project : (id : ℕ) (c : ProjectUpdate) → Keeps (Inside o s d) (repo.update id c)
  unfolding repo.update
  update_project id c = record {
    at = λ w h. (updated_project id c (by_id w.org id w.db.projects)).at w h;
  }

  archived_project :
      (id : ℕ) (found : Option Project) → Keeps (Inside o s d) (repo.archive_found id found)
  unfolding repo.archive_found
  archived_project id none = record { at = λ w h. h }
  archived_project id (some r) = record {
    at = λ w h. ground (
      arith,
      outside-update_where (some o) (λ s. s.id == id && not (repo.is_archived s.status))
          (repo.mark_archived w.now) w.db.projects (λ s. refl),
    );
  }

  pub archive_project : (id : ℕ) → Keeps (Inside o s d) (repo.archive id)
  unfolding repo.archive
  archive_project id = record {
    at = λ w h. (archived_project id (by_id w.org id w.db.projects)).at w h;
  }

pub ruleset projects_rules =
    (insert_audit, insert_project, get_project, update_project, archive_project)
