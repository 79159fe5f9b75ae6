-- ===== src/Repositories/Audit.antt =====
-- repositories/audit.py
use bonerepo.Store.{audit_log_tenant, ◌>>=◌, Exec, policy, draw, current_time}
use bonerepo.Prelude.{ℕ, Option, ok, err, if◌then◌else◌}
use bonerepo.Store.Rows.{AuditLog, AuditAction, AuditMetadata}
use bonerepo.Store.Table.{visible, insert_row}

unfoldable pub store : AuditLog → Exec (Unit {0})
store r w =
    if visible w.org r
    then (ok tt, record w { db = record w.db { audit_logs = insert_row r w.db.audit_logs } })
    else (err policy, w)

unfoldable pub insert :
    ℕ → Option ℕ → AuditAction → Option ℕ → Option AuditMetadata → Exec (Unit {0})
insert org_id user_id action entity_id metadata = do
  fresh ← draw
  now ← current_time
  store (record {
    id = fresh;
    organization_id = org_id;
    user_id = user_id;
    action = action;
    entity_id = entity_id;
    metadata = metadata;
    created_at = now;
  })
