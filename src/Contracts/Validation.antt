-- ===== src/Contracts/Validation.antt =====
-- plimsoll_contracts/validation.py, with the six codes and what the sentence of a check names in
-- place of the strings.
use bonerepo.Prelude.{ℕ, Bool, Option, List}
use bonerepo.Prelude.Texts.{Text}
use bonerepo.Prelude.Int.{ℤ}

pub data CheckStatus : Type 0 where
  pass fail skipped : CheckStatus

pub data CheckCode : Type 0 where
  test_structure script_ref plan_parses variables_present target_allowed capacity : CheckCode

pub data Detail : Type 0 where
  no_plan : Detail
  -- the users that the plans declare, and those that the workload asks for
  declared_and_requested : ℕ → ℕ → Detail
  plans_and_users : ℕ → ℕ → Detail
  -- repository and ref
  unresolved_refs : List (Text × Text) → Detail
  -- repository and the first eight characters of its commit
  commits : List (Text × Text) → Detail
  not_attempted : Detail
  parse_failures : List Text → Detail
  plans_parsed : ℕ → Detail
  missing_variables : List Text → Detail
  variables_resolved : ℕ → Detail
  no_target : Detail
  -- the rejected hosts, with the variable that each stands for, and the unresolved ones
  not_permitted : List (Text × Option Text) → List Text → Detail
  permitted : List Text → Detail
  no_pool : Detail
  requested_of_free : ℕ → ℤ → Detail

pub record Check : Type 0 where
  pub code : CheckCode
  pub status : CheckStatus
  pub detail : Detail

pub record PreflightReport : Type 0 where
  pub ok : Bool
  pub checks : List Check
