-- ===== src/Permissions.antt =====
-- apps/api/plimsoll_api/security/permissions.py
pub mod Closed
mod Tests
use bonerepo.Prelude.{Bool, true, false, List, [], ◌∷◌, if◌then◌else◌, any_of}
use bonerepo.Prelude.Texts.{Text, codes, text_eq}

pub data Permission : Type 0 where
  project_read project_write script_read script_write test_read test_write admin_system : Permission

-- `==` of the enum
unfoldable pub same_permission : Permission → Permission → Bool
same_permission project_read project_read = true
same_permission project_write project_write = true
same_permission script_read script_read = true
same_permission script_write script_write = true
same_permission test_read test_read = true
same_permission test_write test_write = true
same_permission admin_system admin_system = true
same_permission _ _ = false

-- frozenset(Permission)
abbrev pub all_permissions : List Permission
all_permissions =
    project_read ∷ project_write ∷ script_read ∷ script_write ∷ test_read ∷ test_write
    ∷ admin_system ∷ []

abbrev pub read_permissions : List Permission
read_permissions = project_read ∷ script_read ∷ test_read ∷ []

-- `ROLE_PERMISSIONS.get(role, frozenset())`
unfoldable pub permissions_for : Text → List Permission
permissions_for role =
    if text_eq role (codes "ORG_ADMIN")
    then all_permissions
    else if text_eq role (codes "VIEWER")
    then read_permissions
    else []

-- The test of the guard that `requires` returns: false raises PERMISSION_DENIED.
unfoldable pub holds : Text → Permission → Bool
unfolding permissions_for same_permission any_of
holds role p = any_of (same_permission p) (permissions_for role)
