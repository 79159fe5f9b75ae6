-- ===== src/Preflight/Hosts.antt =====
-- The checks of services/preflight.py on what the plans refer to.
use bonerepo.Prelude.{
  Bool, true, false, not, ◌&&◌, Option, none, some, List, [], ◌∷◌, ◌++◌, if◌then◌else◌, length,
  keep, map,
}
use bonerepo.Prelude.Texts.{Text, codes, text_eq, strip, after_prefix, has_text}
use bonerepo.Contracts.Validation.{
  Check, variables_present, target_allowed, not_attempted, missing_variables, variables_resolved,
  no_target, not_permitted, permitted,
}
use bonerepo.Plans.Sets.{sorted_set}
use bonerepo.Plans.Scanner.{closed_word, is_name}
use bonerepo.Plans.{PlanTarget, PlanSummary, Props, get}
use bonerepo.TargetPolicy.{matches_allowlist}
use bonerepo.Preflight.Inputs.{PreflightInput, passed, failed, skip, is_nil}

unfoldable pub has_key : Text → Props → Bool
unfolding get
has_key key props = elim (get key props) [ none ↦ false | some _ ↦ true ]

-- The values of one field in all the summaries.
unfoldable pub gather : {A : Type 0} → (PlanSummary → List A) → List PlanSummary → List A
gather field [] = []
gather field (s ∷ summaries) = field s ++ gather field summaries

unfoldable pub referenced_variables : List PlanSummary → List Text
unfolding sorted_set gather
referenced_variables summaries = sorted_set (gather (λ s. s.variables) summaries)

unfoldable pub missing_from : Props → List Text → List Text
unfolding keep has_key
missing_from variables names = keep (λ name. not (has_key name variables)) names

unfoldable pub variables_check : List PlanSummary → PreflightInput → Bool → Check
unfolding skip failed passed referenced_variables missing_from is_nil
variables_check summaries inputs blocked =
    let referenced = referenced_variables summaries in
    let missing = missing_from inputs.variables referenced in
    if blocked
    then skip variables_present not_attempted
    else if is_nil missing
    then passed variables_present (variables_resolved (length referenced))
    else failed variables_present (missing_variables missing)

-- The word of `${word}` where that is all of the rest.
unfoldable pub whole_word : Text → Option Text → Option Text
unfolding text_eq is_name
whole_word s none = none
whole_word s (some word) = if is_name word && text_eq (word ++ b'}' ∷ []) s then some word else none

unfoldable pub whole_behind : Option Text → Option Text
unfolding whole_word closed_word
whole_behind none = none
whole_behind (some s) = whole_word s (closed_word s)

-- WHOLE_VARIABLE
unfoldable pub whole_variable : Text → Option Text
unfolding whole_behind after_prefix
whole_variable s = whole_behind (after_prefix (codes "${") s)

unfoldable pub resolve_as : Text → Props → Option Text → Option Text
unfolding has_text get
resolve_as host variables none = if has_text (codes "${") host then none else some host
resolve_as host variables (some name) = get name variables

unfoldable pub resolve_host : Text → Props → Option Text
unfolding resolve_as whole_variable strip
resolve_host host variables = resolve_as host variables (whole_variable (strip host))

unfoldable pub target_hosts : List PlanSummary → List Text
unfolding sorted_set gather
target_hosts summaries =
    sorted_set (map (λ (t : PlanTarget). t.host) (gather (λ s. s.targets) summaries))

unfoldable pub note_host : Text → Option Text → List Text → List Text
note_host host none rest = host ∷ rest
note_host host (some resolved) rest = rest

module _ (inputs : PreflightInput) where
  -- The three lists of the loop over the hosts: their variables did not resolve, they do not match,
  -- or they do.
  unfoldable pub unresolved_hosts : List Text → List Text
  unfolding note_host resolve_host
  unresolved_hosts [] = []
  unresolved_hosts (host ∷ hosts) =
      note_host host (resolve_host host inputs.variables) (unresolved_hosts hosts)

  unfoldable pub reject : Text → Option Text → List (Text × Option Text) → List (Text × Option Text)
  unfolding matches_allowlist text_eq
  reject host none rest = rest
  reject host (some resolved) rest =
      if matches_allowlist resolved inputs.allowlist
      then rest
      else (resolved, if text_eq resolved host then none else some host) ∷ rest

  unfoldable pub rejected_hosts : List Text → List (Text × Option Text)
  unfolding reject resolve_host
  rejected_hosts [] = []
  rejected_hosts (host ∷ hosts) =
      reject host (resolve_host host inputs.variables) (rejected_hosts hosts)

  unfoldable pub allow : Option Text → List Text → List Text
  unfolding matches_allowlist
  allow none rest = rest
  allow (some resolved) rest =
      if matches_allowlist resolved inputs.allowlist then resolved ∷ rest else rest

  unfoldable pub allowed_hosts : List Text → List Text
  unfolding allow resolve_host
  allowed_hosts [] = []
  allowed_hosts (host ∷ hosts) = allow (resolve_host host inputs.variables) (allowed_hosts hosts)

  unfoldable pub hosts_check : List Text → Check
  unfolding failed passed unresolved_hosts rejected_hosts allowed_hosts sorted_set is_nil
  hosts_check hosts =
      if is_nil hosts
      then failed target_allowed no_target
      else if is_nil (unresolved_hosts hosts) && is_nil (rejected_hosts hosts)
      then passed target_allowed (permitted (sorted_set (allowed_hosts hosts)))
      else failed target_allowed (not_permitted (rejected_hosts hosts) (unresolved_hosts hosts))

  unfoldable pub targets_check : List PlanSummary → Bool → Check
  unfolding skip hosts_check target_hosts
  targets_check summaries blocked =
      if blocked then skip target_allowed not_attempted else hosts_check (target_hosts summaries)
