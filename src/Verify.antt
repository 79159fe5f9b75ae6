-- ===== src/Verify.antt =====
-- apps/api/plimsoll_api/services/verify.py.
mod Tests
pub mod Search
pub mod Findings
pub mod Conforming
pub mod Accepted
use bonerepo.Prelude.{
  ℕ, Bool, true, false, not, ◌&&◌, ◌||◌, Option, none, some, List, [], ◌∷◌, ◌++◌, if◌then◌else◌,
  any_of, keep, first, map, Result, ok, err,
}
use bonerepo.Prelude.Texts.{Text, codes, text_eq, has_text}
use bonerepo.Contracts.Errors.{repo_unreachable, Details, ref}
use bonerepo.Contracts.Scripts.{
  Finding, FindingCode, FindingSeverity, error, warning, plan_missing, plan_unparseable,
  target_unresolved, manifest_invalid, plan_not_declared, data_file_missing, data_file_undeclared,
  variable_not_declared, VerifyReport, PluginSummary,
}
use bonerepo.Store.{Failure, plimsoll, unexpected}
use bonerepo.Git.{GitAccess, Git, Checkout, resolve_ref, fetch_plan}
use bonerepo.Git.Paths.{PurePath, path_of, join, parent, same_names}
use bonerepo.Plans.{Element, PlanTarget, PlanSummary, parse_plan}
use bonerepo.Plans.Sets.{sorted_set}
use bonerepo.Plans.Manifest.{Manifest, ManifestPlan, Yaml, parse_manifest}

abbrev pub manifest_name : Text
manifest_name = codes "plimsoll.yaml"

unfoldable pub error_of : FindingCode → List Text → Option Text → Finding
error_of code names location = record {
  code = code;
  severity = error;
  names = names;
  location = location;
}

unfoldable pub warning_of : FindingCode → List Text → Option Text → Finding
warning_of code names location = record {
  code = code;
  severity = warning;
  names = names;
  location = location;
}

unfoldable pub manifest_in : List Text → PurePath
manifest_in directory = record { absolute = true; names = manifest_name ∷ directory }

-- `root in directory.parents`, of the names behind the last one
unfoldable pub among_parents : List Text → List Text → Bool
unfolding same_names
among_parents root [] = same_names [] root
among_parents root (name ∷ names) = same_names (name ∷ names) root || among_parents root names

-- The loop of `_find_manifest`, from a directory upward; the root is an absolute path.
unfoldable pub find_upward : (PurePath → Bool) → List Text → List Text → Option PurePath
unfolding manifest_in same_names among_parents
find_upward is_file root [] = if is_file (manifest_in []) then some (manifest_in []) else none
find_upward is_file root (name ∷ names) =
    let rest = find_upward is_file root names in
    if is_file (manifest_in (name ∷ names))
    then some (manifest_in (name ∷ names))
    else if same_names (name ∷ names) root || not (among_parents root names)
    then none
    else rest

unfoldable pub last_name : List Text → Text
last_name [] = []
last_name (name ∷ names) = name

-- Path(path).name
unfoldable pub file_name : Text → Text
unfolding last_name path_of
file_name path = last_name (path_of path).names

unfoldable pub is_variable_host : PlanTarget → Bool
unfolding has_text
is_variable_host target = has_text (codes "${") target.host

unfoldable pub unresolved_targets : PlanSummary → Text → List Finding
unfolding warning_of is_variable_host keep
unresolved_targets summary plan_path =
    map (λ (target : PlanTarget). warning_of target_unresolved (target.host ∷ []) (some plan_path))
      (keep is_variable_host summary.targets)

unfoldable pub is_in : List Text → Text → Bool
unfolding any_of text_eq
is_in names name = any_of (text_eq name) names

unfoldable pub undeclared_variables : ManifestPlan → PlanSummary → List Text
unfolding sorted_set keep is_in
undeclared_variables entry summary =
    sorted_set (keep (λ name. not (is_in entry.variables name)) summary.variables)

unfoldable pub variable_finding : List Text → List Finding
unfolding error_of
variable_finding [] = []
variable_finding (name ∷ names) =
    error_of variable_not_declared (name ∷ names) (some manifest_name) ∷ []

unfoldable pub plugins_of : Option Manifest → List PluginSummary
plugins_of none = []
plugins_of (some manifest) = manifest.plugins

unfoldable pub entry_for : Text → Manifest → Option ManifestPlan
unfolding first text_eq file_name
entry_for plan_path manifest =
    first (λ (plan : ManifestPlan). text_eq (file_name plan.path) (file_name plan_path))
      manifest.plans

unfoldable pub plan_findings : Text → Option PlanSummary → List Finding
unfolding error_of unresolved_targets
plan_findings plan_path none = error_of plan_unparseable [] (some plan_path) ∷ []
plan_findings plan_path (some summary) = unresolved_targets summary plan_path

module _ (tree : Checkout) (plan_path : Text) where
  unfoldable pub plan_file : PurePath
  unfolding join path_of
  plan_file = join tree.root (path_of plan_path)

  unfoldable pub beside_plan : Text → Bool
  unfolding plan_file parent join path_of
  beside_plan path = tree.is_file (join (parent plan_file) (path_of path))

  unfoldable pub find_manifest : Option PurePath
  unfolding find_upward parent plan_file
  find_manifest = find_upward tree.is_file tree.root.names (parent plan_file).names

  unfoldable pub missing_files : ManifestPlan → List Text
  unfolding keep beside_plan
  missing_files entry = keep (λ path. not (beside_plan path)) entry.data_files

  unfoldable pub undeclared_files : ManifestPlan → PlanSummary → List Text
  unfolding keep is_in beside_plan
  undeclared_files entry summary =
      keep (λ path. not (is_in entry.data_files path) && not (beside_plan path)) summary.data_files

  unfoldable pub entry_findings : Option ManifestPlan → PlanSummary → List Finding
  unfolding error_of missing_files undeclared_files undeclared_variables variable_finding
  entry_findings none summary =
      error_of plan_not_declared (plan_path ∷ []) (some manifest_name) ∷ []
  entry_findings (some entry) summary =
      map (λ path. error_of data_file_missing (path ∷ []) (some manifest_name))
        (missing_files entry)
      ++ (map (λ path. error_of data_file_undeclared (path ∷ []) (some plan_path))
            (undeclared_files entry summary)
          ++ variable_finding (undeclared_variables entry summary))

  -- `_manifest_findings`
  unfoldable pub manifest_findings : Manifest → PlanSummary → List Finding
  unfolding entry_findings entry_for
  manifest_findings manifest summary = entry_findings (entry_for plan_path manifest) summary

  -- The findings on a manifest that is there.
  unfoldable pub findings_of : Option Manifest → Option PlanSummary → List Finding
  unfolding error_of manifest_findings
  findings_of none summary = error_of manifest_invalid [] (some manifest_name) ∷ []
  findings_of (some manifest) none = []
  findings_of (some manifest) (some summary) = manifest_findings manifest summary

unfoldable pub is_error : Finding → Bool
is_error finding = elim finding.severity [ error ↦ true | warning ↦ false ]

unfoldable pub report_of :
    Text → Text → List Finding → Option PlanSummary → List PluginSummary → VerifyReport
unfolding any_of is_error
report_of sha ref_name findings plan plugins = record {
  ok = not (any_of is_error findings);
  commit_sha = sha;
  ref = ref_name;
  findings = findings;
  plan = plan;
  plugins = plugins;
}

unfoldable pub unreachable : Option Details → Failure
unreachable details = plimsoll (record { code = repo_unreachable; details = details })

module _ (git : Git) (fromstring : Text → Option (List Element)) (yaml : Yaml) where
  module _ (plan_path : Text) (ref_name : Text) (sha : Text) where
    -- An OSError of a read is not caught.
    unfoldable pub with_manifest :
        Checkout → Option PlanSummary → Option Text → Result Failure VerifyReport
    unfolding parse_manifest plan_findings findings_of plugins_of report_of
    with_manifest tree summary none = err unexpected
    with_manifest tree summary (some text) = ok (
        report_of sha ref_name
          (plan_findings plan_path summary
            ++ findings_of tree plan_path (parse_manifest yaml text) summary)
          summary (plugins_of (parse_manifest yaml text)))

    unfoldable pub at_manifest :
        Checkout → Option PlanSummary → Option PurePath → Result Failure VerifyReport
    unfolding with_manifest plan_findings report_of
    at_manifest tree summary none =
        ok (report_of sha ref_name (plan_findings plan_path summary) summary [])
    at_manifest tree summary (some file) = with_manifest tree summary (tree.read_text file)

    unfoldable pub with_plan : Checkout → Option Text → Result Failure VerifyReport
    unfolding at_manifest find_manifest parse_plan
    with_plan tree none = err unexpected
    with_plan tree (some text) =
        at_manifest tree (parse_plan fromstring text) (find_manifest tree plan_path)

    unfoldable pub in_tree : Option Checkout → Result Failure VerifyReport
    unfolding with_plan plan_file error_of report_of unreachable
    in_tree none = err (unreachable none)
    in_tree (some tree) =
        if tree.is_file (plan_file tree plan_path)
        then with_plan tree (tree.read_text (plan_file tree plan_path))
        else ok (
            report_of sha ref_name (error_of plan_missing (plan_path ∷ sha ∷ []) none ∷ []) none [])

  unfoldable pub at_commit : GitAccess → Text → Text → Option Text → Result Failure VerifyReport
  unfolding in_tree fetch_plan unreachable
  at_commit access plan_path ref_name none = err (unreachable (some (ref ref_name)))
  at_commit access plan_path ref_name (some sha) =
      in_tree plan_path ref_name sha (fetch_plan git access sha plan_path)

  unfoldable pub run : GitAccess → Text → Text → Result Failure VerifyReport
  unfolding at_commit resolve_ref
  run access plan_path ref_name =
      at_commit access plan_path ref_name (resolve_ref git access ref_name)
