-- ===== src/Verify/Findings.antt =====
-- When the findings of a verification hold no error.
use bonerepo.Prelude.{
  ◌≡◌, refl, sym, ap, ◌∙◌, Bool, true, false, not, ◌&&◌, Option, some, List, [], ◌∷◌, ◌++◌, Among,
  here, there, ◌↔◌, ◌⊎◌, inl, inr, arith, if◌then◌else◌, Bool-cases, any_of, keep, map,
}
use mathlib.Core.Path.{subst}
use bonerepo.Prelude.Texts.{Text}
use bonerepo.Contracts.Scripts.{Finding, FindingCode, data_file_missing, data_file_undeclared}
use bonerepo.Git.{Checkout}
use bonerepo.Plans.{PlanSummary}
use bonerepo.Plans.Sets.{sorted_set, Among-sorted_set}
use bonerepo.Plans.Manifest.{ManifestPlan}
use bonerepo.Verify.{
  manifest_name, error_of, warning_of, is_in, beside_plan, missing_files, undeclared_files,
  undeclared_variables, variable_finding, entry_findings, is_error,
}

-- No finding is an error.
abbrev pub clean : List Finding → Bool
clean findings = not (any_of is_error findings)

pub clean-append : (xs ys : List Finding) → clean (xs ++ ys) ≡ (clean xs && clean ys)
unfolding any_of
clean-append [] ys = refl
clean-append (x ∷ xs) ys = ground (arith, clean-append xs ys)

pub clean-warnings :
    {A : Type 0} (code : FindingCode) (names : A → List Text) (location : Option Text) (xs : List A)
    → clean (map (λ x. warning_of code (names x) location) xs) ≡ true
unfolding any_of is_error warning_of
clean-warnings code names location [] = refl
clean-warnings code names location (x ∷ xs) = clean-warnings code names location xs

not-both : true ≡ false → ⊥
not-both h = cc

-- Errors, one for each of some texts: none where there is no text.
error_each_iff :
    (code : FindingCode) (location : Option Text) (p : Text → Bool) (xs : List Text)
    → (clean (map (λ x. error_of code (x ∷ []) location) (keep p xs)) ≡ true)
      ↔ ((x : Text) → Among x xs → p x ≡ false)
unfolding any_of is_error error_of keep
error_each_iff code location p [] = (λ h x m. elim m [ ], λ h. refl)
error_each_iff code location p (x ∷ xs) =
    let ih = error_each_iff code location p xs in
    elim (Bool-cases (p x)) [
      | inl e ↦ (
        λ h. absurd (not-both (unfold keep in sym h ∙ rw e refl)),
        λ all. absurd (not-both (sym e ∙ all x (here refl))),
      )
      | inr e ↦ (
        λ h y m. elim m [ here same ↦ ap p same ∙ e | there n ↦ ih.0 (sym (rw e refl) ∙ h) y n ],
        λ all. rw e (ih.1 (λ y m. all y (there m))),
      )
    ]

keep-nothing_iff :
    (p : Text → Bool) (xs : List Text)
    → ((x : Text) → Among x (keep p xs) → ⊥) ↔ ((x : Text) → Among x xs → p x ≡ false)
unfolding keep
keep-nothing_iff p [] = (λ h x m. elim m [ ], λ h x m. elim m [ ])
keep-nothing_iff p (x ∷ xs) =
    let ih = keep-nothing_iff p xs in
    elim (Bool-cases (p x)) [
      | inl e ↦ (
        λ h. absurd (h x (rw e (here refl))),
        λ all. absurd (not-both (sym e ∙ all x (here refl))),
      )
      | inr e ↦ (
        λ h y m. elim m [ here same ↦ ap p same ∙ e | there n ↦ ih.0 (λ z k. h z (rw e k)) y n ],
        λ all y m.
            ih.1 (λ z k. all z (there k)) y
              (subst (λ b. Among y (if b then x ∷ keep p xs else keep p xs)) e m),
      )
    ]

variable_finding_iff :
    (names : List Text) → (clean (variable_finding names) ≡ true) ↔ ((x : Text) → Among x names → ⊥)
unfolding variable_finding any_of is_error error_of
variable_finding_iff [] = (λ h x m. elim m [ ], λ h. refl)
variable_finding_iff (name ∷ names) = (λ h. cc, λ h. absurd (h name (here refl)))

negated_iff : (b : Bool) → (not b ≡ false) ↔ (b ≡ true)
negated_iff b = ground arith

all_three : (a b c : Bool) → (a && (b && c)) ≡ true → (a ≡ true) × (b ≡ true) × (c ≡ true)
all_three a b c h = ground arith

module _ (tree : Checkout) (plan_path : Text) where
  -- The manifest's entry covers what the plan uses, and its files are there.
  pub record Covers (entry : ManifestPlan) (summary : PlanSummary) : Type 0 where
    pub present :
        (path : Text) → Among path entry.data_files → beside_plan tree plan_path path ≡ true
    pub reads :
        (path : Text)
        → Among path summary.data_files
        → (is_in entry.data_files path ≡ true) ⊎ (beside_plan tree plan_path path ≡ true)
    pub variables : (name : Text) → Among name summary.variables → is_in entry.variables name ≡ true

  missing_files_iff :
      (entry : ManifestPlan)
      → (clean (
            map
              (λ path. error_of data_file_missing (path ∷ []) (some manifest_name))
              (missing_files tree plan_path entry))
          ≡ true)
        ↔ ((path : Text) → Among path entry.data_files → beside_plan tree plan_path path ≡ true)
  unfolding missing_files
  missing_files_iff entry =
      let each =
        error_each_iff data_file_missing (some manifest_name)
          (λ path. not (beside_plan tree plan_path path)) entry.data_files in
      (
        λ h path m. (negated_iff _).0 (each.0 h path m),
        λ all. each.1 (λ path m. (negated_iff _).1 (all path m)),
      )

  neither_iff : (a b : Bool) → ((not a && not b) ≡ false) ↔ ((a ≡ true) ⊎ (b ≡ true))
  neither_iff a b = ground arith

  undeclared_files_iff :
      (entry : ManifestPlan) (summary : PlanSummary)
      → (clean (
            map
              (λ path. error_of data_file_undeclared (path ∷ []) (some plan_path))
              (undeclared_files tree plan_path entry summary))
          ≡ true)
        ↔ ((path : Text)
            → Among path summary.data_files
            → (is_in entry.data_files path ≡ true) ⊎ (beside_plan tree plan_path path ≡ true))
  unfolding undeclared_files
  undeclared_files_iff entry summary =
      let each =
        error_each_iff data_file_undeclared (some plan_path)
          (λ path. not (is_in entry.data_files path) && not (beside_plan tree plan_path path))
          summary.data_files in
      (
        λ h path m. (neither_iff _ _).0 (each.0 h path m),
        λ all. each.1 (λ path m. (neither_iff _ _).1 (all path m)),
      )

  undeclared_variables_iff :
      (entry : ManifestPlan) (summary : PlanSummary)
      → (clean (variable_finding (undeclared_variables entry summary)) ≡ true)
        ↔ ((name : Text) → Among name summary.variables → is_in entry.variables name ≡ true)
  unfolding undeclared_variables
  undeclared_variables_iff entry summary =
      let kept = keep (λ name. not (is_in entry.variables name)) summary.variables in
      let none_listed = variable_finding_iff (sorted_set kept) in
      let nothing = keep-nothing_iff (λ name. not (is_in entry.variables name)) summary.variables in
      (
        λ h name m.
            (negated_iff _).0
              (nothing.0 (λ x k. none_listed.0 h x ((Among-sorted_set x kept).1 k)) name m),
        λ all. none_listed.1 (λ x k.
            nothing.1 (λ name m. (negated_iff _).1 (all name m)) x ((Among-sorted_set x kept).0 k)),
      )

  pub entry_findings_iff :
      (entry : ManifestPlan) (summary : PlanSummary)
      → (clean (entry_findings tree plan_path (some entry) summary) ≡ true) ↔ Covers entry summary
  unfolding entry_findings
  entry_findings_iff entry summary =
      let missing = missing_files_iff entry in
      let undeclared = undeclared_files_iff entry summary in
      let variables = undeclared_variables_iff entry summary in
      let first =
        map (λ path. error_of data_file_missing (path ∷ []) (some manifest_name))
          (missing_files tree plan_path entry) in
      let second =
        map (λ path. error_of data_file_undeclared (path ∷ []) (some plan_path))
          (undeclared_files tree plan_path entry summary) in
      let third = variable_finding (undeclared_variables entry summary) in
      let split =
        clean-append first (second ++ third)
        ∙ ap (λ b. clean first && b) (clean-append second third) in
      (
        λ h.
            let parts = all_three (clean first) (clean second) (clean third) (sym split ∙ h) in
            record {
              present = missing.0 parts.0;
              reads = undeclared.0 parts.1;
              variables = variables.0 parts.2;
            },
        λ c. split ∙ rw (missing.1 c.present, undeclared.1 c.reads, variables.1 c.variables) refl,
      )
