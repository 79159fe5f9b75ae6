-- ===== src/Permissions/Tests.antt =====
-- The role map at a role that a client might misspell.
use bonerepo.Prelude.{◌≡◌, true, ◌↔◌, ◌⊎◌}
use bonerepo.Prelude.Texts.{codes}
use bonerepo.Permissions.{test_write, holds}
use bonerepo.Permissions.Closed.{IsRead, holds_iff}

holds_iff_example : (holds (codes "org_admin") test_write ≡ true) ↔ (
    (codes "org_admin" ≡ codes "ORG_ADMIN")
    ⊎ ((codes "org_admin" ≡ codes "VIEWER") × IsRead test_write))
holds_iff_example = holds_iff (codes "org_admin") test_write
