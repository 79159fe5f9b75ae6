-- ===== src/Preflight/Blocked.antt =====
-- What a preflight report says where a ref does not resolve.
use bonerepo.Prelude.{
  ℕ, ◌≡◌, refl, sym, ◌∙◌, Bool, true, false, not, ◌&&◌, Option, none, some, List, [], ◌∷◌, Among,
  arith, inl, inr, Bool-cases, map, length,
}
use bonerepo.Prelude.Texts.{Text}
use bonerepo.Prelude.Int.{ℤ}
use bonerepo.Contracts.Validation.{
  Check, CheckCode, CheckStatus, fail, skipped, test_structure, script_ref, plan_parses,
  variables_present, target_allowed, capacity,
}
use bonerepo.Git.{Git}
use bonerepo.Plans.{Element, PlanSummary, Props}
use bonerepo.Preflight.Inputs.{
  PlanInput, PreflightInput, passed, failed, skip, is_nil, structure_check, check_capacity,
  capacity_check,
}
use bonerepo.Preflight.Hosts.{variables_check, hosts_check, targets_check}
use bonerepo.Preflight.Loops.{own_commit, unresolved_plans_iff}
use bonerepo.Preflight.Reports.{run-Verdict}
use bonerepo.Preflight.{
  ref_check, parse_check, resolved_refs, unresolved_plans, summaries_of, failures_of, checks_of,
  run,
}

code_structure : (inputs : PreflightInput) → (structure_check inputs).code ≡ test_structure
unfolding structure_check passed failed
code_structure inputs = ground arith

code_capacity : (requested : ℕ) (free : Option ℤ) → (check_capacity requested free).code ≡ capacity
unfolding check_capacity passed failed
code_capacity requested none = refl
code_capacity requested (some n) = ground arith

code_ref :
    (resolved : Props) (unresolved : List (Text × Text))
    → (ref_check resolved unresolved).code ≡ script_ref
unfolding ref_check passed failed
code_ref resolved unresolved = ground arith

code_parse :
    (unresolved : List (Text × Text)) (failures : List Text) (n : ℕ)
    → (parse_check unresolved failures n).code ≡ plan_parses
unfolding parse_check skip passed failed
code_parse unresolved failures n = ground arith

code_variables :
    (summaries : List PlanSummary) (inputs : PreflightInput) (b : Bool)
    → (variables_check summaries inputs b).code ≡ variables_present
unfolding variables_check skip passed failed
code_variables summaries inputs b = ground arith

code_targets :
    (inputs : PreflightInput) (summaries : List PlanSummary) (b : Bool)
    → (targets_check inputs summaries b).code ≡ target_allowed
unfolding targets_check hosts_check skip passed failed
code_targets inputs summaries b = ground arith

abbrev pub codes_of : List Check → List CheckCode
codes_of checks = map (λ (check : Check). check.code) checks

abbrev pub statuses_of : List Check → List CheckStatus
statuses_of checks = map (λ (check : Check). check.status) checks

none-some : {s : Text} → ◌≡◌ {A = Option Text} none (some s) → ⊥
none-some h = cc

module _ (git : Git) (fromstring : Text → Option (List Element)) (inputs : PreflightInput) where
  abbrev resolved : Props
  resolved = resolved_refs git inputs.plans []

  run-codes :
      codes_of (run git fromstring inputs).checks
      ≡ test_structure ∷ script_ref ∷ plan_parses ∷ variables_present ∷ target_allowed ∷ capacity
        ∷ []
  unfolding run checks_of capacity_check
  run-codes =
      let unresolved = unresolved_plans git inputs.plans in
      let summaries = summaries_of git fromstring resolved inputs.plans in
      let failures = failures_of git fromstring resolved inputs.plans in
      let blocked = not (is_nil unresolved && is_nil failures) in
      λ i.
        code_structure inputs i
        ∷ code_ref resolved unresolved i
        ∷ code_parse unresolved failures (length summaries) i
        ∷ code_variables summaries inputs blocked i
        ∷ code_targets inputs summaries blocked i
        ∷ code_capacity inputs.requested_users inputs.free_capacity i
        ∷ []

  run-statuses :
      is_nil (unresolved_plans git inputs.plans) ≡ false
      → statuses_of (run git fromstring inputs).checks
        ≡ (structure_check inputs).status
          ∷ fail
          ∷ skipped
          ∷ skipped
          ∷ skipped
          ∷ (capacity_check inputs).status
          ∷ []
  unfolding run checks_of ref_check parse_check variables_check targets_check failed skip
  run-statuses h = rw h refl

  -- Every report has the six checks, in one order. Where the ref of a plan does not resolve, the
  -- report is not ok, the check of the refs fails, the three checks that need a plan are skipped, and
  -- the checks of the structure and of the capacity are made all the same.
  pub run_unresolved :
      (codes_of (run git fromstring inputs).checks
        ≡ test_structure ∷ script_ref ∷ plan_parses ∷ variables_present ∷ target_allowed ∷ capacity
          ∷ [])
      × ((plan : PlanInput)
          → Among plan inputs.plans
          → own_commit git plan ≡ none
          → ((run git fromstring inputs).ok ≡ false)
            × (statuses_of (run git fromstring inputs).checks
                ≡ (structure_check inputs).status
                  ∷ fail
                  ∷ skipped
                  ∷ skipped
                  ∷ skipped
                  ∷ (capacity_check inputs).status
                  ∷ []))
  run_unresolved = (
    run-codes,
    λ plan m lost.
        let broken = λ (h : is_nil (unresolved_plans git inputs.plans) ≡ true).
          let found = (unresolved_plans_iff git inputs.plans).0 h plan m in
          none-some (sym lost ∙ found.1) in
        (
          elim (Bool-cases (run git fromstring inputs).ok) [
            | inl ok ↦ absurd (broken ((run-Verdict git fromstring inputs).0 ok).refs)
            | inr e ↦ e
          ],
          run-statuses (elim (Bool-cases (is_nil (unresolved_plans git inputs.plans))) [
            | inl e ↦ absurd (broken e)
            | inr e ↦ e
          ]),
        ),
  )
