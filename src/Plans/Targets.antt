-- ===== src/Plans/Targets.antt =====
-- Which hosts are among the targets of a plan, and which variables among its variables.
use mathlib.Core.Path.{subst}
use bonerepo.Prelude.{
  ℕ, ◌≡◌, ◌≢◌, refl, sym, ap, ◌∙◌, true, ◌&&◌, Option, none, some, List, [], Among, ◌↔◌, arith,
  ==_iff, &&-eq-true, some_eq,
}
use bonerepo.Prelude.Texts.{Text, text_eq, text_eq_sound}
use bonerepo.Prelude.Sorting.{Among-sort}
use bonerepo.Plans.Sets.{distinct, sorted_set, Among-distinct, Among-sorted_set}
use bonerepo.Plans.Scanner.{find_variables}
use bonerepo.Plans.Variables.{Refers, find_variables_iff}
use bonerepo.Plans.Hosts.{
  HasHost, add_target-grows, scan-HasHost, Origin, TargetsFrom, add_target-TargetsFrom,
  scan-AllFrom,
}
use bonerepo.Plans.{
  Element, PlanTarget, PlanSummary, http_sampler, branch_at, domain_of, value_of, scan,
  nothing_found, add_defaults, same_port, same_target, target_leb, sorted_targets, summary_of,
  summary_from, parse_plan,
}

same_port_sound : (p q : Option ℕ) → same_port p q ≡ true → p ≡ q
unfolding same_port
same_port_sound none none h = refl
same_port_sound none (some q) h = cc
same_port_sound (some p) none h = cc
same_port_sound (some p) (some q) h = ap some ((==_iff p q).0 h)

same_target_sound : (t u : PlanTarget) → same_target t u ≡ true → t ≡ u
unfolding same_target
same_target_sound t u h =
    let both =
      &&-eq-true (text_eq t.scheme u.scheme && text_eq t.host u.host) (same_port t.port u.port)
        (ground arith) in
    let texts = &&-eq-true (text_eq t.scheme u.scheme) (text_eq t.host u.host) both.0 in
    λ i. record {
      scheme = text_eq_sound t.scheme u.scheme texts.0 i;
      host = text_eq_sound t.host u.host texts.1 i;
      port = same_port_sound t.port u.port both.1 i;
    }

pub Among-sorted_targets :
    (t : PlanTarget) (targets : List PlanTarget)
    → Among t (sorted_targets targets) ↔ Among t targets
unfolding sorted_targets
Among-sorted_targets t targets =
    let sorted = Among-sort target_leb t (distinct same_target targets) in
    let kept = Among-distinct same_target same_target_sound t targets in
    (λ m. kept.0 (sorted.0 m), λ m. sorted.1 (kept.1 m))

-- The targets behind the loop.
abbrev targets_behind : List Element → List PlanTarget
targets_behind elements = (add_defaults (scan elements nothing_found)).targets

behind-HasHost :
    (elements : List Element) (host : Text)
    → HasHost host (scan elements nothing_found).targets
    → HasHost host (targets_behind elements)
unfolding add_defaults
behind-HasHost elements host h = (h.0, add_target-grows [] _ h.0 _ h.1, h.2)

behind-TargetsFrom : (elements : List Element) → TargetsFrom elements (targets_behind elements)
unfolding add_defaults nothing_found value_of
behind-TargetsFrom elements =
    let from =
      scan-AllFrom elements elements nothing_found (λ e m. m)
        ((λ t m. elim m [ ]), λ filled. absurd (filled refl)) in
    add_target-TargetsFrom elements [] _ (scan elements nothing_found) from.1 from.0

parse_plan-summary :
    (fromstring : Text → Option (List Element)) (text : Text) (elements : List Element)
    (summary : PlanSummary)
    → fromstring text ≡ some elements
    → parse_plan fromstring text ≡ some summary
    → summary_of text (add_defaults (scan elements nothing_found)) ≡ summary
unfolding parse_plan summary_from
parse_plan-summary fromstring text elements summary read h =
    some_eq (ap (summary_from text) (sym read) ∙ h)

-- In the summary of a plan, every sampler that names a domain has a target with that host, and every
-- target's host is the domain, not empty, of a sampler or of a configuration element.
pub parse_plan-hosts :
    (fromstring : Text → Option (List Element)) (text : Text) (elements : List Element)
    (summary : PlanSummary)
    → fromstring text ≡ some elements
    → parse_plan fromstring text ≡ some summary
    → ((e : Element)
        → Among e elements
        → branch_at e ≡ http_sampler
        → domain_of e ≢ []
        → HasHost (domain_of e) summary.targets)
      × ((t : PlanTarget) → Among t summary.targets → Origin elements t.host)
unfolding summary_of
parse_plan-hosts fromstring text elements summary read h =
    let listed : sorted_targets (targets_behind elements) ≡ summary.targets =
      ap (λ (s : PlanSummary). s.targets)
        (parse_plan-summary fromstring text elements summary read h) in
    (
      λ e m b filled.
          let found =
            behind-HasHost elements (domain_of e)
              (scan-HasHost elements e nothing_found m b filled) in
          (
            found.0,
            subst (Among found.0) listed ((Among-sorted_targets found.0 _).1 found.1),
            found.2,
          ),
      λ t m.
          behind-TargetsFrom elements t
            ((Among-sorted_targets t _).0 (subst (Among t) (sym listed) m)),
    )

-- The variables in the summary of a plan are exactly the names that the plan refers to, a
-- `${` before and a `}` behind, of word characters, with no digit and no double underscore first.
pub parse_plan-variables :
    (fromstring : Text → Option (List Element)) (text : Text) (elements : List Element)
    (summary : PlanSummary) (name : Text)
    → fromstring text ≡ some elements
    → parse_plan fromstring text ≡ some summary
    → Among name summary.variables ↔ Refers name text
unfolding summary_of
parse_plan-variables fromstring text elements summary name read h =
    let listed : sorted_set (find_variables text) ≡ summary.variables =
      ap (λ (s : PlanSummary). s.variables)
        (parse_plan-summary fromstring text elements summary read h) in
    let sorted = Among-sorted_set name (find_variables text) in
    let found = find_variables_iff text name in
    (
      λ m. found.0 (sorted.0 (subst (Among name) (sym listed) m)),
      λ r. subst (Among name) listed (sorted.1 (found.1 r)),
    )
