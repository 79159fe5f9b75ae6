-- ===== src/Preflight/Reports.antt =====
-- What a preflight report says of a test.
use bonerepo.Prelude.{
  ℕ, ◌≡◌, refl, sym, ◌∙◌, Bool, true, false, not, ◌&&◌, Option, none, some, List, [], ◌↔◌, arith,
  ◌==◌, all_of, length,
}
use bonerepo.Prelude.Int.{ℤ, pos, ◌≤ℤ◌}
use bonerepo.Prelude.Texts.{Text}
use bonerepo.Git.{Git}
use bonerepo.Plans.{Element, PlanSummary, Props}
use bonerepo.Preflight.Inputs.{
  PreflightInput, passed, failed, skip, is_nil, declared_users, structure_check, check_capacity,
  capacity_check,
}
use bonerepo.Preflight.Hosts.{
  referenced_variables, missing_from, variables_check, target_hosts, unresolved_hosts,
  rejected_hosts, hosts_check, targets_check,
}
use bonerepo.Preflight.{
  ref_check, parse_check, is_pass, resolved_refs, unresolved_plans, summaries_of, failures_of,
  checks_of, run,
}

is_pass-structure :
    (inputs : PreflightInput)
    → is_pass (structure_check inputs)
      ≡ (not (is_nil inputs.plans) && declared_users inputs.plans == inputs.requested_users)
unfolding is_pass structure_check passed failed
is_pass-structure inputs = ground arith

is_pass-ref :
    (resolved : Props) (unresolved : List (Text × Text))
    → is_pass (ref_check resolved unresolved) ≡ is_nil unresolved
unfolding is_pass ref_check passed failed
is_pass-ref resolved unresolved = ground arith

is_pass-parse :
    (unresolved : List (Text × Text)) (failures : List Text) (n : ℕ)
    → is_pass (parse_check unresolved failures n) ≡ (is_nil unresolved && is_nil failures)
unfolding is_pass parse_check skip passed failed
is_pass-parse unresolved failures n = ground arith

is_pass-variables :
    (summaries : List PlanSummary) (inputs : PreflightInput) (clear : Bool)
    → is_pass (variables_check summaries inputs (not clear))
      ≡ (clear && is_nil (missing_from inputs.variables (referenced_variables summaries)))
unfolding is_pass variables_check skip passed failed
is_pass-variables summaries inputs clear = ground arith

is_pass-targets :
    (inputs : PreflightInput) (summaries : List PlanSummary) (clear : Bool)
    → is_pass (targets_check inputs summaries (not clear)) ≡ (
        clear
        && not (is_nil (target_hosts summaries))
        && (is_nil (unresolved_hosts inputs (target_hosts summaries))
            && is_nil (rejected_hosts inputs (target_hosts summaries))))
unfolding is_pass targets_check hosts_check skip passed failed
is_pass-targets inputs summaries clear = ground arith

capacity_cases :
    (requested : ℕ) (free : Option ℤ)
    → (is_pass (check_capacity requested free) ≡ true)
      ↔ ((n : ℤ) × (free ≡ some n) × (pos requested ≤ℤ n))
unfolding is_pass check_capacity passed failed
capacity_cases requested none = (λ h. cc, λ r. cc)
capacity_cases requested (some n) = (λ h. (n, refl, ground arith), λ r. ground arith)

pub is_pass-capacity :
    (inputs : PreflightInput)
    → (is_pass (capacity_check inputs) ≡ true)
      ↔ ((free : ℤ) × (inputs.free_capacity ≡ some free) × (pos inputs.requested_users ≤ℤ free))
unfolding is_pass capacity_check check_capacity passed failed
is_pass-capacity inputs = capacity_cases inputs.requested_users inputs.free_capacity

-- What the six checks come to.
pub record Verdict (git : Git) (fromstring : Text → Option (List Element)) (inputs : PreflightInput)
    : Type 0 where
  pub some_plan : is_nil inputs.plans ≡ false
  pub users : (declared_users inputs.plans == inputs.requested_users) ≡ true
  pub refs : is_nil (unresolved_plans git inputs.plans) ≡ true
  pub read :
      is_nil (failures_of git fromstring (resolved_refs git inputs.plans []) inputs.plans) ≡ true
  pub variables :
      is_nil (
        missing_from inputs.variables (
          referenced_variables
            (summaries_of git fromstring (resolved_refs git inputs.plans []) inputs.plans)))
      ≡ true
  pub some_target :
      is_nil (
        target_hosts (summaries_of git fromstring (resolved_refs git inputs.plans []) inputs.plans))
      ≡ false
  pub targets :
      (is_nil (
          unresolved_hosts inputs (
            target_hosts
              (summaries_of git fromstring (resolved_refs git inputs.plans []) inputs.plans)))
        && is_nil (
            rejected_hosts inputs (
              target_hosts
                (summaries_of git fromstring (resolved_refs git inputs.plans []) inputs.plans))))
      ≡ true
  pub capacity : is_pass (capacity_check inputs) ≡ true

-- Six conditions, of which the later ones repeat that the plans were read.
all_six :
    (p u r f v t x c : Bool)
    → ((not p && u)
        && (r && ((r && f) && (((r && f) && v) && (((r && f) && not t && x) && (c && true))))))
      ≡ true
    → (p ≡ false)
      × (u ≡ true)
      × (r ≡ true)
      × (f ≡ true)
      × (v ≡ true)
      × (t ≡ false)
      × (x ≡ true)
      × (c ≡ true)
all_six p u r f v t x c h = ground arith

pub run-Verdict :
    (git : Git) (fromstring : Text → Option (List Element)) (inputs : PreflightInput)
    → ((run git fromstring inputs).ok ≡ true) ↔ Verdict git fromstring inputs
unfolding run checks_of all_of
run-Verdict git fromstring inputs =
    let resolved = resolved_refs git inputs.plans [] in
    let unresolved = unresolved_plans git inputs.plans in
    let summaries = summaries_of git fromstring resolved inputs.plans in
    let failures = failures_of git fromstring resolved inputs.plans in
    let clear = is_nil unresolved && is_nil failures in
    let checks : ◌≡◌ {A = Bool} (run git fromstring inputs).ok _ = λ i.
      is_pass-structure inputs i
      && (is_pass-ref resolved unresolved i
          && (is_pass-parse unresolved failures (length summaries) i
              && (is_pass-variables summaries inputs clear i
                  && (is_pass-targets inputs summaries clear i
                      && (is_pass (capacity_check inputs) && true))))) in
    (
      λ h.
          let all =
            all_six (is_nil inputs.plans) _ _ _ _ (is_nil (target_hosts summaries)) _ _
              (sym checks ∙ h) in
          record {
            some_plan = all.0;
            users = all.1;
            refs = all.2;
            read = all.3;
            variables = all.4;
            some_target = all.5;
            targets = all.6;
            capacity = all.7;
          },
      λ v.
          checks
          ∙ rw
              (
                v.some_plan, v.users, v.refs, v.read, v.variables, v.some_target, v.targets,
                v.capacity,
              )
              refl,
    )
