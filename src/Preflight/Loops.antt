-- ===== src/Preflight/Loops.antt =====
-- What the two loops over the plans leave, for each plan.
use bonerepo.Prelude.{
  ◌≡◌, ◌≢◌, refl, sym, ap, ◌∙◌, true, false, Option, none, some, List, [], ◌∷◌, Among, here, there,
  ◌↔◌, ◌⊎◌, inl, inr, arith, if◌then◌else◌, Bool-cases,
}
use mathlib.Core.Path.{subst}
use bonerepo.Prelude.Texts.{Text, text_eq, text_eq_sound, text_eq_refl}
use bonerepo.Git.{Git, resolve_ref}
use bonerepo.Plans.{Element, PlanSummary, Props}
use bonerepo.Preflight.Inputs.{PlanInput, is_nil}
use bonerepo.Preflight.{
  put, commit_of, record_commit, note_unresolved, Outcome, passed_over, unread, parsed, add_summary,
  add_failure, resolved_refs, unresolved_plans, outcome_of, summaries_of, failures_of,
}

commit_of-put :
    (name key sha : Text) (resolved : Props)
    → commit_of name (put key sha resolved)
      ≡ (if text_eq key name then some sha else commit_of name resolved)
unfolding commit_of put
commit_of-put name key sha [] = refl
commit_of-put name key sha ((k, v) ∷ resolved) = elim (Bool-cases (text_eq k key)) [
  | inl e ↦ rw (text_eq_sound k key e, text_eq_refl key) (ground arith)
  | inr e ↦
      rw (e, commit_of-put name key sha resolved)
        (elim (Bool-cases (text_eq k name)) [
          | inl f ↦
              let other : text_eq key name ≡ false = elim (Bool-cases (text_eq key name)) [
                | inl g ↦ cc (e, f, text_eq_sound key name g)
                | inr g ↦ g
              ] in
              rw (f, other) refl
          | inr f ↦ rw f refl
        ])
]

module _ (git : Git) where
  -- The commit that the ref of a plan resolves to.
  abbrev pub own_commit : PlanInput → Option Text
  own_commit plan = resolve_ref git plan.access plan.ref

  -- Plans of one repository's name resolve alike.
  abbrev pub Consistent : List PlanInput → Type 0
  Consistent plans =
      (p q : PlanInput)
      → Among p plans
      → Among q plans
      → p.repo_name ≡ q.repo_name
      → own_commit p ≡ own_commit q

  abbrev Named : Text → Text → List PlanInput → Type 0
  Named name sha plans =
      (p : PlanInput) → Among p plans → p.repo_name ≡ name → own_commit p ≡ some sha

  record_commit-other :
      (name key : Text) (sha : Option Text) (resolved : Props)
      → text_eq key name ≡ false
      → commit_of name (record_commit key sha resolved) ≡ commit_of name resolved
  unfolding record_commit
  record_commit-other name key none resolved h = refl
  record_commit-other name key (some sha) resolved h =
      rw (commit_of-put name key sha resolved, h) refl

  record_commit-own :
      (name sha : Text) (found : Option Text) (resolved : Props)
      → found ≡ some sha
      → commit_of name (record_commit name found resolved) ≡ some sha
  unfolding record_commit
  record_commit-own name sha none resolved h = cc
  record_commit-own name sha (some s) resolved h =
      rw (commit_of-put name name s resolved, text_eq_refl name) h

  kept_commit :
      (name sha : Text) (plans : List PlanInput) (resolved : Props)
      → Named name sha plans
      → (commit_of name resolved ≡ some sha)
        ⊎ ((p : PlanInput) × Among p plans × (p.repo_name ≡ name))
      → commit_of name (resolved_refs git plans resolved) ≡ some sha
  unfolding resolved_refs
  kept_commit name sha [] resolved all (inl e) = e
  kept_commit name sha [] resolved all (inr r) = elim r.1 [ ]
  kept_commit name sha (p ∷ plans) resolved all now =
      kept_commit name sha plans _ (λ q m e. all q (there m) e)
        (elim (Bool-cases (text_eq p.repo_name name)) [
          | inl e ↦
              let same = text_eq_sound p.repo_name name e in
              inl (
                subst (λ n. commit_of name (record_commit n (own_commit p) resolved) ≡ some sha)
                  (sym same)
                  (record_commit-own name sha (own_commit p) resolved (all p (here refl) same)))
          | inr e ↦ elim now [
            | inl was ↦ inl (record_commit-other name p.repo_name (own_commit p) resolved e ∙ was)
            | inr r ↦ elim r.1 [
              | here f ↦ cc (
                e,
                text_eq_refl name,
                ap (λ (q : PlanInput). text_eq q.repo_name name) f,
                ap (λ n. text_eq n name) r.2,
              )
              | there m ↦ inr (r.0, m, r.2)
            ]
          ]
        ])

  -- Where the plans of one name resolve alike, a plan is read at the commit of its own ref.
  pub own_commit-kept :
      (plans : List PlanInput) (plan : PlanInput) (sha : Text)
      → Consistent plans
      → Among plan plans
      → own_commit plan ≡ some sha
      → commit_of plan.repo_name (resolved_refs git plans []) ≡ some sha
  own_commit-kept plans plan sha alike m e =
      kept_commit plan.repo_name sha plans [] (λ q n same. alike q plan n m same ∙ e)
        (inr (plan, m, refl))

  unresolved_step :
      (plan : PlanInput) (found : Option Text) (rest : List (Text × Text))
      → is_nil (note_unresolved plan found rest) ≡ true
      → ((sha : Text) × (found ≡ some sha)) × (is_nil rest ≡ true)
  unfolding note_unresolved is_nil
  unresolved_step plan none rest h = cc
  unresolved_step plan (some sha) rest h = ((sha, refl), h)

  pub unresolved_plans_iff :
      (plans : List PlanInput)
      → (is_nil (unresolved_plans git plans) ≡ true)
        ↔ ((plan : PlanInput) → Among plan plans → (sha : Text) × (own_commit plan ≡ some sha))
  unfolding unresolved_plans
  unresolved_plans_iff [] = (λ h p m. elim m [ ], λ h. unfold is_nil in refl)
  unresolved_plans_iff (plan ∷ plans) =
      let ih = unresolved_plans_iff plans in
      (
        λ h p m.
            let split = unresolved_step plan (own_commit plan) (unresolved_plans git plans) h in
            elim m [
              | here e ↦ (split.0.0, ap own_commit e ∙ split.0.1)
              | there n ↦ ih.0 split.1 p n
            ],
        λ all.
            rw ((all plan (here refl)).1) (unfold note_unresolved in ih.1 (λ p m. all p (there m))),
      )

  module _ (fromstring : Text → Option (List Element)) (resolved : Props) where
    failure_step :
        (name : Text) (o : Outcome) (rest : List Text)
        → is_nil (add_failure name o rest) ≡ true
        → (o ≢ unread) × (is_nil rest ≡ true)
    unfolding add_failure is_nil
    failure_step name passed_over rest h = (λ e. cc, h)
    failure_step name unread rest h = cc
    failure_step name (parsed s) rest h = (λ e. cc, h)

    step_failure :
        (name : Text) (o : Outcome) (rest : List Text)
        → o ≢ unread
        → is_nil rest ≡ true
        → is_nil (add_failure name o rest) ≡ true
    unfolding add_failure
    step_failure name passed_over rest h nil = nil
    step_failure name unread rest h nil = absurd (h refl)
    step_failure name (parsed s) rest h nil = nil

    pub failures_of_iff :
        (plans : List PlanInput)
        → (is_nil (failures_of git fromstring resolved plans) ≡ true) ↔ (
            (plan : PlanInput)
            → Among plan plans
            → outcome_of git fromstring resolved plan ≢ unread)
    unfolding failures_of
    failures_of_iff [] = (λ h p m. elim m [ ], λ h. unfold is_nil in refl)
    failures_of_iff (plan ∷ plans) =
        let ih = failures_of_iff plans in
        (
          λ h p m.
              let split =
                failure_step plan.repo_name _ (failures_of git fromstring resolved plans) h in
              elim m [
                | here e ↦ λ u. split.0 (ap (outcome_of git fromstring resolved) (sym e) ∙ u)
                | there n ↦ ih.0 split.1 p n
              ],
          λ all.
              step_failure plan.repo_name _ _ (all plan (here refl))
                (ih.1 (λ p m. all p (there m))),
        )

    summary_step :
        (s : PlanSummary) (o : Outcome) (rest : List PlanSummary)
        → Among s (add_summary o rest) ↔ ((o ≡ parsed s) ⊎ Among s rest)
    unfolding add_summary
    summary_step s passed_over rest = (λ m. inr m, λ o. elim o [ inl e ↦ cc | inr m ↦ m ])
    summary_step s unread rest = (λ m. inr m, λ o. elim o [ inl e ↦ cc | inr m ↦ m ])
    summary_step s (parsed t) rest = (
      λ m. elim m [ here e ↦ inl (ap parsed (sym e)) | there n ↦ inr n ],
      λ o. elim o [ inl e ↦ here (cc) | inr m ↦ there m ],
    )

    pub summaries_of_iff :
        (s : PlanSummary) (plans : List PlanInput)
        → Among s (summaries_of git fromstring resolved plans) ↔ (
            (plan : PlanInput) × Among plan plans
            × (outcome_of git fromstring resolved plan ≡ parsed s))
    unfolding summaries_of
    summaries_of_iff s [] = (λ m. elim m [ ], λ r. elim r.1 [ ])
    summaries_of_iff s (plan ∷ plans) =
        let ih = summaries_of_iff s plans in
        let step =
          summary_step s (outcome_of git fromstring resolved plan)
            (summaries_of git fromstring resolved plans) in
        (
          λ m. elim (step.0 m) [
            | inl e ↦ (plan, here refl, e)
            | inr n ↦ let r = ih.0 n in (r.0, there r.1, r.2)
          ],
          λ r. elim r.1 [
            | here e ↦ step.1 (inl (ap (outcome_of git fromstring resolved) (sym e) ∙ r.2))
            | there n ↦ step.1 (inr (ih.1 (r.0, n, r.2)))
          ],
        )
