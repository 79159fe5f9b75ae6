-- ===== src/Preflight/Runnable.antt =====
-- When a preflight report is ok, described without the checks, and what it says of a ref that does
-- not resolve.
use bonerepo.Prelude.{
  ◌≡◌, ◌≢◌, refl, sym, ap, ◌∙◌, true, false, Option, none, some, List, [], ◌∷◌, Among, here, ◌↔◌,
  ==_iff,
}
use bonerepo.Prelude.Int.{ℤ, pos, ◌≤ℤ◌}
use mathlib.Core.Path.{subst}
use bonerepo.Prelude.Texts.{Text}
use bonerepo.Git.{Git, fetch_plan}
use bonerepo.Plans.{Element, PlanTarget, PlanSummary, Props}
use bonerepo.Preflight.Inputs.{PlanInput, PreflightInput, is_nil, declared_users}
use bonerepo.Preflight.Hosts.{has_key, referenced_variables, target_hosts}
use bonerepo.Preflight.Permitted.{
  Cleared, clear_iff, missing_from_iff, target_hosts_iff, referenced_variables_iff,
}
use bonerepo.Preflight.Loops.{
  own_commit, Consistent, own_commit-kept, unresolved_plans_iff, failures_of_iff, summaries_of_iff,
}
use bonerepo.Preflight.Reports.{Verdict, run-Verdict, is_pass-capacity}
use bonerepo.Preflight.{
  unread, parsed, parsed_as, resolved_refs, read_plan, outcome_at, outcome_of, summaries_of,
  failures_of, run,
}

is_nil-false : {A : Type 0} (xs : List A) → is_nil xs ≡ false → (x : A) × Among x xs
unfolding is_nil
is_nil-false [] h = cc
is_nil-false (x ∷ xs) h = (x, here refl)

false-is_nil : {A : Type 0} (x : A) (xs : List A) → Among x xs → is_nil xs ≡ false
unfolding is_nil
false-is_nil x [] m = elim m [ ]
false-is_nil x (y ∷ xs) m = refl

parsed-not_unread : {s : PlanSummary} → parsed s ≢ unread
parsed-not_unread h = cc

module _ (git : Git) (fromstring : Text → Option (List Element)) where
  -- The plan is read and parsed at the commit that its own ref resolves to.
  pub record Summarised (plan : PlanInput) (summary : PlanSummary) : Type 0 where
    pub sha : Text
    pub resolves : own_commit git plan ≡ some sha
    pub reads :
        read_plan fromstring plan.plan_path (fetch_plan git plan.access sha plan.plan_path)
        ≡ some summary

  -- A test that may run: its plans add up to its users, each of them is read, its variables have
  -- values, its hosts are permitted and there is one, and the pool has room.
  pub record Runnable (inputs : PreflightInput) : Type 0 where
    pub some_plan : (plan : PlanInput) × Among plan inputs.plans
    pub users : declared_users inputs.plans ≡ inputs.requested_users
    pub readable :
        (plan : PlanInput)
        → Among plan inputs.plans
        → (summary : PlanSummary) × Summarised plan summary
    pub variables :
        (plan : PlanInput) (summary : PlanSummary) (name : Text)
        → Among plan inputs.plans
        → Summarised plan summary
        → Among name summary.variables
        → has_key name inputs.variables ≡ true
    pub some_target :
        (plan : PlanInput) × (summary : PlanSummary) × (t : PlanTarget) × Among plan inputs.plans
        × Summarised plan summary
        × Among t summary.targets
    pub targets :
        (plan : PlanInput) (summary : PlanSummary) (t : PlanTarget)
        → Among plan inputs.plans
        → Summarised plan summary
        → Among t summary.targets
        → Cleared inputs t.host
    pub capacity :
        (free : ℤ) × (inputs.free_capacity ≡ some free) × (pos inputs.requested_users ≤ℤ free)

  module _ (inputs : PreflightInput) (alike : Consistent git inputs.plans) where
    abbrev resolved : Props
    resolved = resolved_refs git inputs.plans []

    abbrev summaries : List PlanSummary
    summaries = summaries_of git fromstring resolved inputs.plans

    own_outcome :
        (plan : PlanInput) (sha : Text)
        → Among plan inputs.plans
        → own_commit git plan ≡ some sha
        → outcome_of git fromstring resolved plan
          ≡ parsed_as
              (read_plan fromstring plan.plan_path (fetch_plan git plan.access sha plan.plan_path))
    unfolding outcome_of outcome_at
    own_outcome plan sha m e =
        ap (outcome_at git fromstring plan) (own_commit-kept git inputs.plans plan sha alike m e)

    parsed_as_sound :
        (o : Option PlanSummary) (s : PlanSummary) → parsed_as o ≡ parsed s → o ≡ some s
    unfolding parsed_as
    parsed_as_sound none s h = cc
    parsed_as_sound (some t) s h = cc

    parsed_as-read :
        (o : Option PlanSummary) → parsed_as o ≢ unread → (s : PlanSummary) × (o ≡ some s)
    unfolding parsed_as
    parsed_as-read none h = absurd (h refl)
    parsed_as-read (some s) h = (s, refl)

    Summarised-outcome :
        (plan : PlanInput) (s : PlanSummary)
        → Among plan inputs.plans
        → Summarised plan s
        → outcome_of git fromstring resolved plan ≡ parsed s
    unfolding parsed_as
    Summarised-outcome plan s m done =
        own_outcome plan done.sha m done.resolves ∙ ap parsed_as done.reads

    outcome-Summarised :
        (plan : PlanInput) (sha : Text) (s : PlanSummary)
        → Among plan inputs.plans
        → own_commit git plan ≡ some sha
        → outcome_of git fromstring resolved plan ≡ parsed s
        → Summarised plan s
    outcome-Summarised plan sha s m e h = record {
      sha = sha;
      resolves = e;
      reads = parsed_as_sound _ s (sym (own_outcome plan sha m e) ∙ h);
    }

    Among-summaries :
        (plan : PlanInput) (s : PlanSummary)
        → Among plan inputs.plans
        → Summarised plan s
        → Among s summaries
    Among-summaries plan s m done =
        (summaries_of_iff git fromstring resolved s inputs.plans).1
          (plan, m, Summarised-outcome plan s m done)

    abbrev Resolving : Type 0
    Resolving =
        (plan : PlanInput)
        → Among plan inputs.plans
        → (sha : Text) × (own_commit git plan ≡ some sha)

    summaries-Summarised :
        (s : PlanSummary)
        → Resolving
        → Among s summaries
        → (plan : PlanInput) × Among plan inputs.plans × Summarised plan s
    summaries-Summarised s commits m =
        let r = (summaries_of_iff git fromstring resolved s inputs.plans).0 m in
        let commit = commits r.0 r.1 in
        (r.0, r.1, outcome-Summarised r.0 commit.0 s r.1 commit.1 r.2)

    read-Summarised :
        (plan : PlanInput)
        → Resolving
        → Among plan inputs.plans
        → is_nil (failures_of git fromstring resolved inputs.plans) ≡ true
        → (s : PlanSummary) × Summarised plan s
    read-Summarised plan commits m h =
        let commit = commits plan m in
        let kept = (failures_of_iff git fromstring resolved inputs.plans).0 h plan m in
        let done = parsed_as-read _ (λ e. kept (own_outcome plan commit.0 m commit.1 ∙ e)) in
        (done.0, record { sha = commit.0; resolves = commit.1; reads = done.1 })

    Verdict-target :
        Verdict git fromstring inputs
        → Resolving
        → (plan : PlanInput) × (summary : PlanSummary) × (t : PlanTarget) × Among plan inputs.plans
          × Summarised plan summary
          × Among t summary.targets
    Verdict-target v commits =
        let host = is_nil-false (target_hosts summaries) v.some_target in
        let r = (target_hosts_iff host.0 summaries).0 host.1 in
        let from = summaries-Summarised r.0 commits r.2 in (from.0, r.0, r.1, from.1, from.2, r.3)

    Verdict-Runnable : Verdict git fromstring inputs → Runnable inputs
    Verdict-Runnable v =
        let commits = (unresolved_plans_iff git inputs.plans).0 v.refs in
        let cleared = (clear_iff inputs (target_hosts summaries)).0 v.targets in
        let present =
          (missing_from_iff inputs.variables (referenced_variables summaries)).0 v.variables in
        record {
          some_plan = is_nil-false inputs.plans v.some_plan;
          users = (==_iff _ _).0 v.users;
          readable = λ plan m. read-Summarised plan commits m v.read;
          variables = λ plan summary name m done n. present name (
              (referenced_variables_iff name summaries).1
                (summary, Among-summaries plan summary m done, n));
          some_target = Verdict-target v commits;
          targets = λ plan summary t m done n. cleared t.host (
              (target_hosts_iff t.host summaries).1
                (summary, t, Among-summaries plan summary m done, n, refl));
          capacity = (is_pass-capacity inputs).0 v.capacity;
        }

    Runnable-Verdict : Runnable inputs → Verdict git fromstring inputs
    Runnable-Verdict r =
        let commits : Resolving =
          λ plan m. ((r.readable plan m).1.sha, (r.readable plan m).1.resolves) in
        let reads = λ (plan : PlanInput) (m : Among plan inputs.plans).
          Summarised-outcome plan (r.readable plan m).0 m (r.readable plan m).1 in
        let target = r.some_target in
        let host = (target_hosts_iff target.2.host summaries).1 (
          target.1,
          target.2,
          Among-summaries target.0 target.1 target.3 target.4,
          target.5,
          refl,
        ) in
        record {
          some_plan = false-is_nil r.some_plan.0 inputs.plans r.some_plan.1;
          users = (==_iff _ _).1 r.users;
          refs = (unresolved_plans_iff git inputs.plans).1 commits;
          read =
              (failures_of_iff git fromstring resolved inputs.plans).1
                (λ plan m u. parsed-not_unread (sym (reads plan m) ∙ u));
          variables =
              (missing_from_iff inputs.variables (referenced_variables summaries)).1 (λ name n.
                let from = (referenced_variables_iff name summaries).0 n in
                let plan = summaries-Summarised from.0 commits from.1 in
                r.variables plan.0 from.0 name plan.1 plan.2 from.2);
          some_target = false-is_nil target.2.host (target_hosts summaries) host;
          targets = (clear_iff inputs (target_hosts summaries)).1 (λ name n.
              let from = (target_hosts_iff name summaries).0 n in
              let plan = summaries-Summarised from.0 commits from.2 in
              subst (Cleared inputs) from.4 (r.targets plan.0 from.0 from.1 plan.1 plan.2 from.3));
          capacity = (is_pass-capacity inputs).1 r.capacity;
        }

    -- Where plans of one repository's name resolve alike, a preflight report is ok exactly when the
    -- test is Runnable: each plan is read at the commit of its ref, all variables have values, every
    -- host is permitted by the target policy and there is one, the plans add up to the users of the
    -- workload, and these are no more than the pool has free.
    pub run_ok_iff : ((run git fromstring inputs).ok ≡ true) ↔ Runnable inputs
    run_ok_iff =
        let verdict = run-Verdict git fromstring inputs in
        (λ h. Verdict-Runnable (verdict.0 h), λ r. verdict.1 (Runnable-Verdict r))
