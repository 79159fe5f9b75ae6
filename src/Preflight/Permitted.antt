-- ===== src/Preflight/Permitted.antt =====
-- When the checks on hosts and on variables pass.
use bonerepo.Prelude.{
  ◌≡◌, refl, sym, ap, ◌∙◌, Bool, true, ◌&&◌, Option, none, some, List, [], ◌∷◌, ◌++◌, Among, here,
  there, ◌↔◌, ◌⊎◌, inl, inr, arith, keep, map, Bool-cases,
}
use mathlib.Core.Path.{subst}
use bonerepo.Prelude.Texts.{Text}
use bonerepo.Plans.{PlanTarget, PlanSummary, Props}
use bonerepo.Plans.Sets.{Among-sorted_set}
use bonerepo.TargetPolicy.{matches_allowlist}
use bonerepo.Preflight.Inputs.{PreflightInput, is_nil}
use bonerepo.Preflight.Hosts.{
  has_key, gather, referenced_variables, missing_from, resolve_host, target_hosts, note_host,
  unresolved_hosts, reject, rejected_hosts,
}

pub is_nil-Among : {A : Type 0} (x : A) (xs : List A) → is_nil xs ≡ true → Among x xs → ⊥
unfolding is_nil
is_nil-Among x [] h m = elim m [ ]
is_nil-Among x (y ∷ xs) h m = cc

-- The host is no variable without a value, and the allowlist permits what it stands for.
pub record Cleared (inputs : PreflightInput) (host : Text) : Type 0 where
  pub resolved : Text
  pub resolves : resolve_host host inputs.variables ≡ some resolved
  pub matches : matches_allowlist resolved inputs.allowlist ≡ true

module _ (inputs : PreflightInput) where
  -- Neither loop lists the host.
  abbrev clear : List Text → Bool
  clear hosts = is_nil (unresolved_hosts inputs hosts) && is_nil (rejected_hosts inputs hosts)

  step_clear :
      (host : Text) (resolved : Option Text) (others : List Text)
      (rejected : List (Text × Option Text))
      → resolve_host host inputs.variables ≡ resolved
      → (is_nil (note_host host resolved others) && is_nil (reject inputs host resolved rejected))
        ≡ true
      → Cleared inputs host × ((is_nil others && is_nil rejected) ≡ true)
  unfolding note_host reject is_nil
  step_clear host none others rejected e h = cc
  step_clear host (some resolved) others rejected e h =
      elim (Bool-cases (matches_allowlist resolved inputs.allowlist)) [
        | inl m ↦ (record { resolved = resolved; resolves = e; matches = m }, ground arith)
        | inr m ↦ ground arith
      ]

  clear_step :
      (host : Text) (others : List Text) (rejected : List (Text × Option Text))
      → Cleared inputs host
      → (is_nil others && is_nil rejected) ≡ true
      → (is_nil (note_host host (resolve_host host inputs.variables) others)
          && is_nil (reject inputs host (resolve_host host inputs.variables) rejected))
        ≡ true
  unfolding note_host reject
  clear_step host others rejected c h = rw (c.resolves, c.matches) h

  pub clear_iff :
      (hosts : List Text)
      → (clear hosts ≡ true) ↔ ((host : Text) → Among host hosts → Cleared inputs host)
  unfolding unresolved_hosts rejected_hosts
  clear_iff [] = (λ h host m. elim m [ ], λ h. unfold is_nil in refl)
  clear_iff (host ∷ hosts) =
      let ih = clear_iff hosts in
      (
        λ h x m.
            let split =
              step_clear host _ (unresolved_hosts inputs hosts) (rejected_hosts inputs hosts) refl
                h in
            elim m [ here e ↦ subst (Cleared inputs) (sym e) split.0 | there n ↦ ih.0 split.1 x n ],
        λ all. clear_step host _ _ (all host (here refl)) (ih.1 (λ x m. all x (there m))),
      )

missing_step :
    (variables : Props) (name : Text) (names : List Text)
    → is_nil (missing_from variables (name ∷ names)) ≡ true
    → (has_key name variables ≡ true) × (is_nil (missing_from variables names) ≡ true)
unfolding missing_from is_nil keep
missing_step variables name names h = elim (Bool-cases (has_key name variables)) [
  | inl e ↦ (e, ground arith)
  | inr e ↦ ground arith
]

pub missing_from_iff :
    (variables : Props) (names : List Text)
    → (is_nil (missing_from variables names) ≡ true)
      ↔ ((name : Text) → Among name names → has_key name variables ≡ true)
unfolding missing_from keep
missing_from_iff variables [] = (λ h name m. elim m [ ], λ h. unfold is_nil in refl)
missing_from_iff variables (x ∷ names) =
    let ih = missing_from_iff variables names in
    (
      λ h name m.
          let split = missing_step variables x names h in
          elim m [
            | here e ↦ ap (λ n. has_key n variables) e ∙ split.0
            | there n ↦ ih.0 split.1 name n
          ],
      λ all. rw (all x (here refl)) (ih.1 (λ name m. all name (there m))),
    )

append_iff : {A : Type 0} (x : A) (xs ys : List A) → Among x (xs ++ ys) ↔ (Among x xs ⊎ Among x ys)
append_iff x [] ys = (λ m. inr m, λ o. elim o [ inl m ↦ elim m [ ] | inr m ↦ m ])
append_iff x (y ∷ xs) ys =
    let ih = append_iff x xs ys in
    (
      λ m. elim m [
        | here e ↦ inl (here e)
        | there n ↦ elim (ih.0 n) [ inl k ↦ inl (there k) | inr k ↦ inr k ]
      ],
      λ o. elim o [
        | inl m ↦ elim m [ here e ↦ here e | there k ↦ there (ih.1 (inl k)) ]
        | inr m ↦ there (ih.1 (inr m))
      ],
    )

pub gather_iff :
    {A : Type 0} (field : PlanSummary → List A) (x : A) (summaries : List PlanSummary)
    → Among x (gather field summaries) ↔ ((s : PlanSummary) × Among s summaries × Among x (field s))
unfolding gather
gather_iff field x [] = (λ m. elim m [ ], λ r. elim r.1 [ ])
gather_iff field x (s ∷ summaries) =
    let ih = gather_iff field x summaries in
    let both = append_iff x (field s) (gather field summaries) in
    (
      λ m. elim (both.0 m) [
        | inl n ↦ (s, here refl, n)
        | inr n ↦ let r = ih.0 n in (r.0, there r.1, r.2)
      ],
      λ r. elim r.1 [
        | here e ↦ both.1 (inl (subst (λ y. Among x (field y)) e r.2))
        | there n ↦ both.1 (inr (ih.1 (r.0, n, r.2)))
      ],
    )

Among-map_host :
    (host : Text) (targets : List PlanTarget)
    → Among host (map (λ (t : PlanTarget). t.host) targets)
      ↔ ((t : PlanTarget) × Among t targets × (t.host ≡ host))
Among-map_host host [] = (λ m. elim m [ ], λ r. elim r.1 [ ])
Among-map_host host (t ∷ targets) =
    let ih = Among-map_host host targets in
    (
      λ m. elim m [
        | here e ↦ (t, here refl, sym e)
        | there n ↦ let r = ih.0 n in (r.0, there r.1, r.2)
      ],
      λ r. elim r.1 [
        | here e ↦ here (sym r.2 ∙ ap (λ (u : PlanTarget). u.host) e)
        | there n ↦ there (ih.1 (r.0, n, r.2))
      ],
    )

pub target_hosts_iff :
    (host : Text) (summaries : List PlanSummary)
    → Among host (target_hosts summaries) ↔ (
        (s : PlanSummary) × (t : PlanTarget) × Among s summaries
        × Among t s.targets
        × (t.host ≡ host))
unfolding target_hosts
target_hosts_iff host summaries =
    let targets = gather (λ s. s.targets) summaries in
    let sorted = Among-sorted_set host (map (λ (t : PlanTarget). t.host) targets) in
    let mapped = Among-map_host host targets in
    (
      λ m.
          let r = mapped.0 (sorted.0 m) in
          let g = (gather_iff (λ s. s.targets) r.0 summaries).0 r.1 in (g.0, r.0, g.1, g.2, r.2),
      λ r.
          let g = (gather_iff (λ s. s.targets) r.1 summaries).1 (r.0, r.2, r.3) in
          sorted.1 (mapped.1 (r.1, g, r.4)),
    )

pub referenced_variables_iff :
    (name : Text) (summaries : List PlanSummary)
    → Among name (referenced_variables summaries)
      ↔ ((s : PlanSummary) × Among s summaries × Among name s.variables)
unfolding referenced_variables
referenced_variables_iff name summaries =
    let sorted = Among-sorted_set name (gather (λ s. s.variables) summaries) in
    let gathered = gather_iff (λ s. s.variables) name summaries in
    (λ m. gathered.0 (sorted.0 m), λ r. sorted.1 (gathered.1 r))
