-- ===== src/Contracts/Updates.antt =====
-- The bodies of PATCH requests: `exclude_unset` tells an absent field from an explicit null.
use bonerepo.Prelude.{Bool, true, false, Option, none, some, List, [], ◌∷◌}
use bonerepo.Prelude.Texts.{Text}

pub data Field (A : Type 0) : Type 0 where
  absent null : Field A
  given : A → Field A

module _ {A : Type 0} where
  unfoldable pub is_absent : Field A → Bool
  is_absent absent = true
  is_absent _ = false

  unfoldable pub is_null : Field A → Bool
  is_null null = true
  is_null _ = false

  -- SET on a column that may be NULL, and on one that may not; the null of the second is refused
  -- before the row is written.
  unfoldable pub set_nullable : Field A → Option A → Option A
  set_nullable absent old = old
  set_nullable null old = none
  set_nullable (given a) old = some a

  unfoldable pub set_required : Field A → A → A
  set_required (given a) old = a
  set_required _ old = old

  -- The column's name, if the field was sent.
  unfoldable pub named : Field A → Text → List Text
  named absent column = []
  named _ column = column ∷ []
