-- ===== src/Verify/Conforming.antt =====
-- When a verification report is ok, described without its findings.
use bonerepo.Prelude.{
  ◌≡◌, refl, sym, ap, ◌∙◌, true, false, ◌&&◌, Option, none, some, List, [], ◌∷◌, ◌++◌, ◌↔◌, any_of,
  keep, some_eq, Result, ok, err,
}
use mathlib.Core.Path.{subst}
use bonerepo.Prelude.Texts.{Text}
use bonerepo.Contracts.Scripts.{Finding, target_unresolved, VerifyReport, PluginSummary}
use bonerepo.Store.{Failure}
use bonerepo.Git.{Git, Checkout}
use bonerepo.Git.Paths.{PurePath}
use bonerepo.Plans.{Element, PlanTarget, PlanSummary, parse_plan}
use bonerepo.Plans.Manifest.{Manifest, ManifestPlan, Yaml, parse_manifest}
use bonerepo.Verify.Findings.{clean, clean-append, clean-warnings, Covers, entry_findings_iff}
use bonerepo.Verify.{
  error_of, is_variable_host, unresolved_targets, plan_file, find_manifest, entry_findings,
  entry_for, manifest_findings, plan_findings, findings_of, plugins_of, is_error, report_of,
  with_manifest, at_manifest,
}

-- The verification returned a report that is ok.
abbrev pub IsOk : Result Failure VerifyReport → Type 0
IsOk r = (report : VerifyReport) × (r ≡ ok report) × (report.ok ≡ true)

pub err-IsOk : (e : Failure) → IsOk (err e) → ⊥
err-IsOk e h = cc (h.1)

ok_eq : {r s : VerifyReport} → ◌≡◌ {A = Result Failure VerifyReport} (ok r) (ok s) → r ≡ s
ok_eq h = cc

pub report_of_iff :
    (sha ref : Text) (findings : List Finding) (plan : Option PlanSummary)
    (plugins : List PluginSummary)
    → IsOk (ok (report_of sha ref findings plan plugins)) ↔ (clean findings ≡ true)
unfolding report_of
report_of_iff sha ref findings plan plugins = (
  λ h. ap (λ (r : VerifyReport). r.ok) (ok_eq h.1) ∙ h.2,
  λ c. (report_of sha ref findings plan plugins, refl, c),
)

plan_findings-clean :
    (plan_path : Text) (summary : PlanSummary)
    → clean (plan_findings plan_path (some summary)) ≡ true
unfolding plan_findings unresolved_targets
plan_findings-clean plan_path summary =
    clean-warnings target_unresolved (λ (t : PlanTarget). t.host ∷ []) (some plan_path)
      (keep is_variable_host summary.targets)

plan_findings-error :
    (plan_path : Text) (others : List Finding)
    → clean (plan_findings plan_path none ++ others) ≡ false
unfolding plan_findings error_of any_of is_error
plan_findings-error plan_path others = refl

not-both : true ≡ false → ⊥
not-both h = cc

module _ (git : Git) (fromstring : Text → Option (List Element)) (yaml : Yaml)
    (plan_path : Text) where
  -- The text reads as a manifest whose entry for the plan covers what the plan uses.
  pub record Declares (tree : Checkout) (text : Text) (summary : PlanSummary) : Type 0 where
    pub manifest : Manifest
    pub entry : ManifestPlan
    pub parses : parse_manifest yaml text ≡ some manifest
    pub listed : entry_for plan_path manifest ≡ some entry
    pub covers : Covers tree plan_path entry summary

  entry_iff :
      (tree : Checkout) (text : Text) (summary : PlanSummary) (manifest : Manifest)
      (entry : Option ManifestPlan)
      → parse_manifest yaml text ≡ some manifest
      → entry_for plan_path manifest ≡ entry
      → (clean (entry_findings tree plan_path entry summary) ≡ true) ↔ Declares tree text summary
  unfolding entry_findings error_of any_of is_error
  entry_iff tree text summary manifest none e f = (
    λ h. cc (h),
    λ d.
        let same : manifest ≡ d.manifest = some_eq (sym e ∙ d.parses) in
        cc (f, ap (entry_for plan_path) same, d.listed),
  )
  entry_iff tree text summary manifest (some entry) e f =
      let covered = entry_findings_iff tree plan_path entry summary in
      (
        λ h. record {
          manifest = manifest;
          entry = entry;
          parses = e;
          listed = f;
          covers = covered.0 h;
        },
        λ d.
            let same : manifest ≡ d.manifest = some_eq (sym e ∙ d.parses) in
            let listed : entry ≡ d.entry =
              some_eq (sym f ∙ ap (entry_for plan_path) same ∙ d.listed) in
            covered.1 (subst (λ x. Covers tree plan_path x summary) (sym listed) d.covers),
      )

  findings_of_iff :
      (tree : Checkout) (text : Text) (summary : PlanSummary) (manifest : Option Manifest)
      → parse_manifest yaml text ≡ manifest
      → (clean (findings_of tree plan_path manifest (some summary)) ≡ true)
        ↔ Declares tree text summary
  unfolding findings_of manifest_findings
  findings_of_iff tree text summary none e =
      (unfold any_of is_error error_of in λ h. cc (h), λ d. cc (e, d.parses))
  findings_of_iff tree text summary (some manifest) e =
      entry_iff tree text summary manifest (entry_for plan_path manifest) e refl

  -- A manifest that is found reads and declares the plan.
  abbrev pub ManifestDeclares : Checkout → PlanSummary → Option PurePath → Type 0
  ManifestDeclares tree summary found =
      (file : PurePath)
      → found ≡ some file
      → (text : Text) × (tree.read_text file ≡ some text) × Declares tree text summary

  module _ (ref_name sha : Text) where
    with_manifest_iff :
        (tree : Checkout) (summary : PlanSummary) (file : PurePath) (text : Option Text)
        → tree.read_text file ≡ text
        → IsOk (with_manifest git fromstring yaml plan_path ref_name sha tree (some summary) text)
          ↔ ManifestDeclares tree summary (some file)
    unfolding with_manifest
    with_manifest_iff tree summary file none e =
        (λ h. absurd (err-IsOk _ h), λ d. let found = d file refl in cc (e, found.1))
    with_manifest_iff tree summary file (some text) e =
        let report =
          report_of_iff sha ref_name
            (plan_findings plan_path (some summary)
              ++ findings_of tree plan_path (parse_manifest yaml text) (some summary))
            (some summary) (plugins_of (parse_manifest yaml text)) in
        let declares = findings_of_iff tree text summary (parse_manifest yaml text) refl in
        let split =
          clean-append (plan_findings plan_path (some summary))
            (findings_of tree plan_path (parse_manifest yaml text) (some summary))
          ∙ ap
              (λ b.
                b && clean (findings_of tree plan_path (parse_manifest yaml text) (some summary)))
              (plan_findings-clean plan_path summary) in
        (
          λ h f same. (
            text,
            ap tree.read_text (sym (some_eq same)) ∙ e,
            declares.0 (sym split ∙ report.0 h),
          ),
          λ d.
              let found = d file refl in
              let same : found.0 ≡ text = some_eq (sym found.1 ∙ e) in
              report.1 (split ∙ declares.1 (subst (λ t. Declares tree t summary) same found.2)),
        )

    pub at_manifest_iff :
        (tree : Checkout) (summary : PlanSummary) (found : Option PurePath)
        → IsOk (at_manifest git fromstring yaml plan_path ref_name sha tree (some summary) found)
          ↔ ManifestDeclares tree summary found
    unfolding at_manifest
    at_manifest_iff tree summary none =
        let report =
          report_of_iff sha ref_name (plan_findings plan_path (some summary)) (some summary) [] in
        (λ h f same. cc (same), λ d. report.1 (plan_findings-clean plan_path summary))
    at_manifest_iff tree summary (some file) =
        with_manifest_iff tree summary file (tree.read_text file) refl

    unread-IsOk :
        (tree : Checkout) (text : Option Text)
        → IsOk (with_manifest git fromstring yaml plan_path ref_name sha tree none text)
        → ⊥
    unfolding with_manifest
    unread-IsOk tree none h = err-IsOk _ h
    unread-IsOk tree (some text) h =
        let others = findings_of tree plan_path (parse_manifest yaml text) none in
        let c =
          (report_of_iff sha ref_name (plan_findings plan_path none ++ others) none
              (plugins_of (parse_manifest yaml text))).0
            h in
        not-both (sym c ∙ plan_findings-error plan_path others)

    -- A plan that does not parse is an error, whatever the manifest says.
    pub unparsed-IsOk :
        (tree : Checkout) (found : Option PurePath)
        → IsOk (at_manifest git fromstring yaml plan_path ref_name sha tree none found)
        → ⊥
    unfolding at_manifest
    unparsed-IsOk tree none h =
        let c = (report_of_iff sha ref_name (plan_findings plan_path none) none []).0 h in
        not-both (sym c ∙ unfold plan_findings error_of any_of is_error in refl)
    unparsed-IsOk tree (some file) h = unread-IsOk tree (tree.read_text file) h

  -- What an ok report of a tree stands for: the plan is there, it parses, and the manifest that is
  -- found for it, if any, declares it.
  pub record Conforms (tree : Checkout) : Type 0 where
    pub text : Text
    pub summary : PlanSummary
    pub present : tree.is_file (plan_file tree plan_path) ≡ true
    pub reads : tree.read_text (plan_file tree plan_path) ≡ some text
    pub parses : parse_plan fromstring text ≡ some summary
    pub declared : ManifestDeclares tree summary (find_manifest tree plan_path)
