-- ===== src/Preflight/Inputs.antt =====
-- The inputs of services/preflight.py, and the checks that need no plan.
use bonerepo.Prelude.{
  ℕ, ◌+◌, Bool, true, false, Option, none, some, List, [], ◌∷◌, ◌==◌, if◌then◌else◌, length,
}
use bonerepo.Prelude.Int.{ℤ, pos, leb_ℤ}
use bonerepo.Prelude.Texts.{Text}
use bonerepo.Contracts.Validation.{
  pass, fail, skipped, Check, CheckCode, test_structure, capacity, Detail, no_plan,
  declared_and_requested, plans_and_users, no_pool, requested_of_free,
}
use bonerepo.Git.{GitAccess}
use bonerepo.Plans.{Props}

pub record PlanInput : Type 0 where
  pub repo_name : Text
  pub access : GitAccess
  pub plan_path : Text
  pub ref : Text
  pub virtual_users : ℕ

pub record PreflightInput : Type 0 where
  pub requested_users : ℕ
  pub plans : List PlanInput
  pub allowlist : List Text
  -- a name and its stored value
  pub variables : Props
  pub free_capacity : Option ℤ

unfoldable pub passed : CheckCode → Detail → Check
passed code detail = record { code = code; status = pass; detail = detail }

unfoldable pub failed : CheckCode → Detail → Check
failed code detail = record { code = code; status = fail; detail = detail }

unfoldable pub skip : CheckCode → Detail → Check
skip code detail = record { code = code; status = skipped; detail = detail }

unfoldable pub is_nil : {A : Type 0} → List A → Bool
is_nil [] = true
is_nil (a ∷ xs) = false

unfoldable pub declared_users : List PlanInput → ℕ
declared_users [] = 0
declared_users (plan ∷ plans) = plan.virtual_users + declared_users plans

unfoldable pub structure_check : PreflightInput → Check
unfolding passed failed is_nil declared_users
structure_check inputs =
    let declared = declared_users inputs.plans in
    if is_nil inputs.plans
    then failed test_structure no_plan
    else if declared == inputs.requested_users
    then passed test_structure (plans_and_users (length inputs.plans) declared)
    else failed test_structure (declared_and_requested declared inputs.requested_users)

unfoldable pub check_capacity : ℕ → Option ℤ → Check
unfolding failed passed
check_capacity requested none = failed capacity no_pool
check_capacity requested (some free) =
    if leb_ℤ (pos requested) free
    then passed capacity (requested_of_free requested free)
    else failed capacity (requested_of_free requested free)

unfoldable pub capacity_check : PreflightInput → Check
unfolding check_capacity
capacity_check inputs = check_capacity inputs.requested_users inputs.free_capacity
