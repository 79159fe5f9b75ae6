-- ===== src/Preflight/Tests.antt =====
-- A test of one plan, whose target host is a variable.
use bonerepo.Prelude.{
  ◌≡◌, refl, sym, ap, ◌∙◌, true, false, Option, none, some, List, [], ◌∷◌, Among, here, there, ◌↔◌,
  if◌then◌else◌,
}
use bonerepo.Prelude.Int.{pos}
use bonerepo.Prelude.Texts.{Text, codes, text_eq}
use bonerepo.Contracts.Validation.{
  fail, skipped, test_structure, script_ref, plan_parses, variables_present, target_allowed,
  capacity,
}
use bonerepo.Git.{Git, Checkout, resolve_ref, fetch_plan}
use bonerepo.Plans.{Element, domain_prop, parse_plan}
use bonerepo.TargetPolicy.Runs.{runs}
use bonerepo.Preflight.Inputs.{PlanInput, PreflightInput, structure_check, capacity_check}
use bonerepo.Preflight.Hosts.{resolve_host}
use bonerepo.Preflight.Loops.{own_commit, Consistent}
use bonerepo.Preflight.Blocked.{codes_of, statuses_of, run_unresolved}
use bonerepo.Preflight.Runnable.{Runnable, run_ok_iff}
use bonerepo.Preflight.{run}

abbrev tree : Checkout
tree = record {
  root = record { absolute = true; names = codes "t" ∷ [] };
  is_file = λ p. true;
  read_text = λ p. some (codes "${HOST}");
}

-- `main` is the one ref of the repository.
abbrev git : Git
git = record {
  decode = λ s. s;
  ls_remote = λ login url ref.
      if text_eq ref (codes "main")
      then some (codes "0123456789abcdef0123456789abcdef01234567\trefs/heads/main\n")
      else none;
  checkout = λ _ _ _ _. some tree;
}

abbrev fromstring : Text → Option (List Element)
fromstring text = some (
    record {
      testclass = some (codes "HTTPSamplerProxy");
      testname = none;
      string_props = (some domain_prop, some (codes "${HOST}")) ∷ [];
    }
    ∷ [])

abbrev plan : Text → PlanInput
plan ref = record {
  repo_name = codes "shop";
  access = record { url = codes "https://h/r"; kind = none; secret = none };
  plan_path = codes "perf/p.jmx";
  ref = ref;
  virtual_users = 5;
}

abbrev inputs : Text → PreflightInput
inputs ref = record {
  requested_users = 5;
  plans = plan ref ∷ [];
  allowlist = codes ".shop.org" ∷ [];
  variables = (codes "HOST", codes "www.shop.org") ∷ [];
  free_capacity = some (pos 9);
}

alike : (ref : Text) → Consistent git (inputs ref).plans
alike ref p q (here e) (here f) same = ap (own_commit git) (e ∙ sym f)
alike ref p q (here e) (there m) same = elim m [ ]
alike ref p q (there m) n same = elim m [ ]

main_is_ok : (run git fromstring (inputs (codes "main"))).ok ≡ true
unfolding run runs resolve_ref fetch_plan parse_plan resolve_host
main_is_ok = refl

run_ok_iff_example :
    ((run git fromstring (inputs (codes "main"))).ok ≡ true)
    ↔ Runnable git fromstring (inputs (codes "main"))
run_ok_iff_example = run_ok_iff git fromstring (inputs (codes "main")) (alike (codes "main"))

run_unresolved_example :
    (codes_of (run git fromstring (inputs (codes "dev"))).checks
      ≡ test_structure ∷ script_ref ∷ plan_parses ∷ variables_present ∷ target_allowed ∷ capacity
        ∷ [])
    × ((p : PlanInput)
        → Among p (inputs (codes "dev")).plans
        → own_commit git p ≡ none
        → ((run git fromstring (inputs (codes "dev"))).ok ≡ false)
          × (statuses_of (run git fromstring (inputs (codes "dev"))).checks
              ≡ (structure_check (inputs (codes "dev"))).status
                ∷ fail
                ∷ skipped
                ∷ skipped
                ∷ skipped
                ∷ (capacity_check (inputs (codes "dev"))).status
                ∷ []))
run_unresolved_example = run_unresolved git fromstring (inputs (codes "dev"))

dev_is_lost : own_commit git (plan (codes "dev")) ≡ none
unfolding resolve_ref text_eq
dev_is_lost = refl
