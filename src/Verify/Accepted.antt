-- ===== src/Verify/Accepted.antt =====
-- The whole of a verification: when its report is ok.
use bonerepo.Prelude.{
  ◌≡◌, refl, sym, ap, ◌∙◌, true, false, Option, none, some, List, [], ◌∷◌, ◌↔◌, inl, inr,
  Bool-cases, any_of, some_eq,
}
use mathlib.Core.Path.{subst}
use bonerepo.Prelude.Texts.{Text}
use bonerepo.Git.{GitAccess, Git, Checkout, resolve_ref, fetch_plan}
use bonerepo.Git.Paths.{PurePath}
use bonerepo.Plans.{Element, PlanSummary, parse_plan}
use bonerepo.Plans.Manifest.{Yaml}
use bonerepo.Contracts.Scripts.{plan_missing}
use bonerepo.Verify.Conforming.{
  IsOk, err-IsOk, report_of_iff, unparsed-IsOk, at_manifest_iff, ManifestDeclares, Conforms,
}
use bonerepo.Verify.{
  error_of, is_error, plan_file, find_manifest, at_manifest, with_plan, in_tree, at_commit, run,
}

missing-IsOk : true ≡ false → ⊥
missing-IsOk h = cc

module _ (git : Git) (fromstring : Text → Option (List Element)) (yaml : Yaml) (plan_path : Text)
    (ref_name sha : Text) (tree : Checkout) where
  abbrev found : Option PurePath
  found = find_manifest tree plan_path

  parsed_iff :
      (text : Text) (summary : Option PlanSummary)
      → tree.is_file (plan_file tree plan_path) ≡ true
      → tree.read_text (plan_file tree plan_path) ≡ some text
      → parse_plan fromstring text ≡ summary
      → IsOk (at_manifest git fromstring yaml plan_path ref_name sha tree summary found)
        ↔ Conforms git fromstring yaml plan_path tree
  parsed_iff text none f e g = (
    λ h. absurd (unparsed-IsOk git fromstring yaml plan_path ref_name sha tree found h),
    λ c.
        let same : text ≡ c.text = some_eq (sym e ∙ c.reads) in
        cc (g, ap (parse_plan fromstring) same, c.parses),
  )
  parsed_iff text (some summary) f e g =
      let manifest =
        at_manifest_iff git fromstring yaml plan_path ref_name sha tree summary found in
      (
        λ h. record {
          text = text;
          summary = summary;
          present = f;
          reads = e;
          parses = g;
          declared = manifest.0 h;
        },
        λ c.
            let same : text ≡ c.text = some_eq (sym e ∙ c.reads) in
            let parsed : c.summary ≡ summary =
              some_eq (sym c.parses ∙ ap (parse_plan fromstring) (sym same) ∙ g) in
            manifest.1 (
              subst (λ s. ManifestDeclares git fromstring yaml plan_path tree s found) parsed
                c.declared),
      )

  with_plan_iff :
      (text : Option Text)
      → tree.is_file (plan_file tree plan_path) ≡ true
      → tree.read_text (plan_file tree plan_path) ≡ text
      → IsOk (with_plan git fromstring yaml plan_path ref_name sha tree text)
        ↔ Conforms git fromstring yaml plan_path tree
  unfolding with_plan
  with_plan_iff none f e = (λ h. absurd (err-IsOk _ h), λ c. cc (e, c.reads))
  with_plan_iff (some text) f e = parsed_iff text (parse_plan fromstring text) f e refl

  in_tree_iff :
      IsOk (in_tree git fromstring yaml plan_path ref_name sha (some tree))
      ↔ Conforms git fromstring yaml plan_path tree
  unfolding in_tree
  in_tree_iff = elim (Bool-cases (tree.is_file (plan_file tree plan_path))) [
    | inl e ↦ rw e (with_plan_iff (tree.read_text (plan_file tree plan_path)) e refl)
    | inr e ↦ rw e (
      (λ h.
          let c =
            (report_of_iff sha ref_name (error_of plan_missing (plan_path ∷ sha ∷ []) none ∷ [])
                none []).0
              h in
          absurd (missing-IsOk (sym c ∙ unfold any_of is_error error_of in refl))),
      (λ c. absurd (missing-IsOk (sym c.present ∙ e))),
    )
  ]

module _ (git : Git) (fromstring : Text → Option (List Element)) (yaml : Yaml) (access : GitAccess)
    (plan_path ref_name : Text) where
  -- The ref resolves to a commit, whose tree conforms.
  pub record Verified : Type 0 where
    pub sha : Text
    pub tree : Checkout
    pub resolves : resolve_ref git access ref_name ≡ some sha
    pub fetches : fetch_plan git access sha plan_path ≡ some tree
    pub conforms : Conforms git fromstring yaml plan_path tree

  fetched_iff :
      (sha : Text) (tree : Option Checkout)
      → resolve_ref git access ref_name ≡ some sha
      → fetch_plan git access sha plan_path ≡ tree
      → IsOk (in_tree git fromstring yaml plan_path ref_name sha tree) ↔ Verified
  fetched_iff sha none e f = (
    unfold in_tree in λ h. absurd (err-IsOk _ h),
    λ v.
        let same : sha ≡ v.sha = some_eq (sym e ∙ v.resolves) in
        cc (f, ap (λ s. fetch_plan git access s plan_path) same, v.fetches),
  )
  fetched_iff sha (some tree) e f =
      let conforms = in_tree_iff git fromstring yaml plan_path ref_name sha tree in
      (
        λ h. record { sha = sha; tree = tree; resolves = e; fetches = f; conforms = conforms.0 h },
        λ v.
            let same : v.sha ≡ sha = some_eq (sym v.resolves ∙ e) in
            let fetched : v.tree ≡ tree =
              some_eq (sym v.fetches ∙ ap (λ s. fetch_plan git access s plan_path) same ∙ f) in
            conforms.1 (subst (Conforms git fromstring yaml plan_path) fetched v.conforms),
      )

  commit_iff :
      (sha : Option Text)
      → resolve_ref git access ref_name ≡ sha
      → IsOk (at_commit git fromstring yaml access plan_path ref_name sha) ↔ Verified
  unfolding at_commit
  commit_iff none e = (λ h. absurd (err-IsOk _ h), λ v. cc (e, v.resolves))
  commit_iff (some sha) e = fetched_iff sha (fetch_plan git access sha plan_path) e refl

  -- A verification returns a report that is ok exactly when the ref resolves, the plan is a file of
  -- the tree at that commit and parses, and the manifest that is found for it, if any, is read and
  -- has an entry with the plan's file name, of which the first has data files that are there, and declares each
  -- variable of the plan and each of its data files that is not there anyway.
  pub run-Verified : IsOk (run git fromstring yaml access plan_path ref_name) ↔ Verified
  unfolding run
  run-Verified = commit_iff (resolve_ref git access ref_name) refl
