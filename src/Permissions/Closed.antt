-- ===== src/Permissions/Closed.antt =====
-- The role map fails closed.
use bonerepo.Prelude.{◌≡◌, true, ◌↔◌, ◌⊎◌, arith}
use bonerepo.Prelude.Texts.{Text, codes, text_eq_iff}
use bonerepo.Permissions.{Permission, project_read, script_read, test_read, holds}

-- The permissions that change nothing.
abbrev pub IsRead : Permission → Type 0
IsRead project_read = Unit
IsRead script_read = Unit
IsRead test_read = Unit
IsRead _ = ⊥

-- A role holds a permission exactly when it is ORG_ADMIN, or it is VIEWER and the permission is one
-- of the three reads: any other role, a misspelt one too, holds nothing.
pub holds_iff :
    (role : Text) (p : Permission)
    → (holds role p ≡ true) ↔ ((role ≡ codes "ORG_ADMIN") ⊎ ((role ≡ codes "VIEWER") × IsRead p))
unfolding holds
holds_iff role p =
    ground (arith, text_eq_iff role (codes "ORG_ADMIN"), text_eq_iff role (codes "VIEWER"))
