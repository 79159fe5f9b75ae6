-- ===== src/Contracts/Projects.antt =====
-- plimsoll_contracts/projects.py
use bonerepo.Prelude.{Bool, ◌&&◌, Option, List, ◌++◌}
use bonerepo.Prelude.Texts.{Text, codes}
use bonerepo.Contracts.Updates.{Field, is_absent, named}

pub record ProjectCreate : Type 0 where
  pub name : Text
  pub project_key : Text
  pub description : Option Text
  pub environment : Option Text
  pub tags : List Text

pub record ProjectUpdate : Type 0 where
  pub name : Field Text
  pub description : Field Text
  pub environment : Field Text
  pub tags : Field (List Text)

-- `if not changes`
unfoldable pub no_changes : ProjectUpdate → Bool
unfolding is_absent
no_changes b =
    is_absent b.name && is_absent b.description && is_absent b.environment && is_absent b.tags

-- sorted(changes)
unfoldable pub changed_fields : ProjectUpdate → List Text
unfolding named
changed_fields b =
    named b.description (codes "description")
    ++ (named b.environment (codes "environment")
        ++ (named b.name (codes "name") ++ named b.tags (codes "tags")))
