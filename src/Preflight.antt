-- ===== src/Preflight.antt =====
-- apps/api/plimsoll_api/services/preflight.py. A git command and the XML library answer one input
-- alike during a run.
pub mod Inputs
pub mod Hosts
pub mod Permitted
pub mod Loops
pub mod Reports
pub mod Blocked
pub mod Runnable
mod Tests
use bonerepo.Prelude.{
  ℕ, zero, suc, ◌+◌, Bool, true, false, not, ◌&&◌, ◌||◌, Option, none, some, List, [], ◌∷◌, ◌++◌,
  ◌==◌, if◌then◌else◌, length, take, keep, map, all_of, any_of,
}
use bonerepo.Prelude.Int.{ℤ, pos, leb_ℤ}
use bonerepo.Prelude.Texts.{Text, codes, text_eq, strip, after_prefix, has_text}
use bonerepo.Contracts.Validation.{
  CheckStatus, pass, fail, skipped, Check, CheckCode, test_structure, script_ref, plan_parses,
  variables_present, target_allowed, capacity, PreflightReport, Detail, no_plan,
  declared_and_requested, plans_and_users, unresolved_refs, commits, not_attempted, parse_failures,
  plans_parsed, missing_variables, variables_resolved, no_target, not_permitted, permitted, no_pool,
  requested_of_free,
}
use bonerepo.Git.{GitAccess, Git, Checkout, resolve_ref, fetch_plan}
use bonerepo.Git.Paths.{path_of, join}
use bonerepo.Plans.Sets.{sorted_set}
use bonerepo.Plans.Scanner.{closed_word, is_name}
use bonerepo.Plans.{Element, PlanTarget, PlanSummary, Props, get, parse_plan}
use bonerepo.TargetPolicy.{matches_allowlist}
use bonerepo.Preflight.Inputs.{
  PlanInput, PreflightInput, passed, failed, skip, is_nil, structure_check, capacity_check,
}
use bonerepo.Preflight.Hosts.{variables_check, targets_check}

-- `resolved.get(name)`
unfoldable pub commit_of : Text → Props → Option Text
unfolding text_eq
commit_of name [] = none
commit_of name ((key, value) ∷ resolved) =
    let rest = commit_of name resolved in if text_eq key name then some value else rest

-- `resolved`, a dict from a repository's name to a commit: a name that is there keeps its place.
unfoldable pub put : Text → Text → Props → Props
unfolding text_eq
put name sha [] = (name, sha) ∷ []
put name sha ((key, value) ∷ resolved) =
    let rest = put name sha resolved in
    if text_eq key name then (key, sha) ∷ resolved else (key, value) ∷ rest

unfoldable pub record_commit : Text → Option Text → Props → Props
unfolding put
record_commit name none resolved = resolved
record_commit name (some sha) resolved = put name sha resolved

unfoldable pub note_unresolved : PlanInput → Option Text → List (Text × Text) → List (Text × Text)
note_unresolved plan none rest = (plan.repo_name, plan.ref) ∷ rest
note_unresolved plan (some sha) rest = rest

-- What the second loop makes of a plan: no commit, a failure to read or parse it, or its summary.
pub data Outcome : Type 0 where
  passed_over unread : Outcome
  parsed : PlanSummary → Outcome

unfoldable pub parsed_as : Option PlanSummary → Outcome
parsed_as none = unread
parsed_as (some summary) = parsed summary

unfoldable pub add_summary : Outcome → List PlanSummary → List PlanSummary
add_summary (parsed summary) rest = summary ∷ rest
add_summary _ rest = rest

unfoldable pub add_failure : Text → Outcome → List Text → List Text
add_failure name unread rest = name ∷ rest
add_failure name _ rest = rest

unfoldable pub is_pass : Check → Bool
is_pass check = elim check.status [ pass ↦ true | _ ↦ false ]

unfoldable pub ref_check : Props → List (Text × Text) → Check
unfolding failed passed is_nil
ref_check resolved unresolved =
    if is_nil unresolved
    then passed script_ref
        (commits (map (λ (entry : Text × Text). (entry.0, take 8 entry.1)) resolved))
    else failed script_ref (unresolved_refs unresolved)

unfoldable pub parse_check : List (Text × Text) → List Text → ℕ → Check
unfolding skip failed passed is_nil
parse_check unresolved failures count =
    if is_nil unresolved
    then if is_nil failures
      then passed plan_parses (plans_parsed count)
      else failed plan_parses (parse_failures failures)
    else skip plan_parses not_attempted

module _ (fromstring : Text → Option (List Element)) where
  unfoldable pub parse_text : Option Text → Option PlanSummary
  unfolding parse_plan
  parse_text none = none
  parse_text (some text) = parse_plan fromstring text

  -- `parse_plan((root / plan.plan_path).read_text(...))`
  unfoldable pub read_plan : Text → Option Checkout → Option PlanSummary
  unfolding parse_text join path_of
  read_plan plan_path none = none
  read_plan plan_path (some tree) = parse_text (tree.read_text (join tree.root (path_of plan_path)))

module _ (git : Git) where
  -- The first loop.
  unfoldable pub resolved_refs : List PlanInput → Props → Props
  unfolding record_commit resolve_ref
  resolved_refs [] resolved = resolved
  resolved_refs (plan ∷ plans) resolved =
      resolved_refs plans
        (record_commit plan.repo_name (resolve_ref git plan.access plan.ref) resolved)

  unfoldable pub unresolved_plans : List PlanInput → List (Text × Text)
  unfolding note_unresolved resolve_ref
  unresolved_plans [] = []
  unresolved_plans (plan ∷ plans) =
      note_unresolved plan (resolve_ref git plan.access plan.ref) (unresolved_plans plans)

  module _ (fromstring : Text → Option (List Element)) where
    unfoldable pub outcome_at : PlanInput → Option Text → Outcome
    unfolding parsed_as read_plan fetch_plan
    outcome_at plan none = passed_over
    outcome_at plan (some sha) =
        parsed_as
          (read_plan fromstring plan.plan_path (fetch_plan git plan.access sha plan.plan_path))

    unfoldable pub outcome_of : Props → PlanInput → Outcome
    unfolding outcome_at commit_of
    outcome_of resolved plan = outcome_at plan (commit_of plan.repo_name resolved)

    -- The second loop.
    unfoldable pub summaries_of : Props → List PlanInput → List PlanSummary
    unfolding add_summary outcome_of
    summaries_of resolved [] = []
    summaries_of resolved (plan ∷ plans) =
        add_summary (outcome_of resolved plan) (summaries_of resolved plans)

    unfoldable pub failures_of : Props → List PlanInput → List Text
    unfolding add_failure outcome_of
    failures_of resolved [] = []
    failures_of resolved (plan ∷ plans) =
        add_failure plan.repo_name (outcome_of resolved plan) (failures_of resolved plans)

    unfoldable pub checks_of : PreflightInput → List Check
    unfolding structure_check ref_check resolved_refs unresolved_plans summaries_of failures_of
        parse_check variables_check targets_check capacity_check is_nil
    checks_of inputs =
        let resolved = resolved_refs inputs.plans [] in
        let unresolved = unresolved_plans inputs.plans in
        let summaries = summaries_of resolved inputs.plans in
        let failures = failures_of resolved inputs.plans in
        let blocked = not (is_nil unresolved && is_nil failures) in
        structure_check inputs
        ∷ ref_check resolved unresolved
        ∷ parse_check unresolved failures (length summaries)
        ∷ variables_check summaries inputs blocked
        ∷ targets_check inputs summaries blocked
        ∷ capacity_check inputs
        ∷ []

    unfoldable pub run : PreflightInput → PreflightReport
    unfolding all_of is_pass checks_of
    run inputs = record { ok = all_of is_pass (checks_of inputs); checks = checks_of inputs }
