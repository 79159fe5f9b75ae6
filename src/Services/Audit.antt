-- ===== src/Services/Audit.antt =====
-- services/audit.py: the trail is written inside the caller's transaction.
use bonerepo.Prelude.{ℕ, Option, some}
use bonerepo.Tokens.{AccessClaims}
use bonerepo.Store.Rows.{AuditAction, AuditMetadata}
use bonerepo.Store.{Exec}
use bonerepo.Repositories.Audit

unfoldable pub note : AccessClaims → AuditAction → ℕ → Option AuditMetadata → Exec (Unit {0})
note principal action entity_id metadata =
    Audit.insert principal.organization_id (some principal.user_id) action (some entity_id) metadata
