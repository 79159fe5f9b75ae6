-- ===== src/Plans/Tests.antt =====
-- A plan of two samplers under one default.
use bonerepo.Prelude.{◌≡◌, ◌≢◌, refl, Option, none, some, List, [], ◌∷◌, Among, ◌↔◌}
use bonerepo.Prelude.Texts.{Text, codes, text_eq, starts_with, strip, ends_with}
use bonerepo.Plans.Scanner.{find_variables}
use bonerepo.Plans.Variables.{Refers}
use bonerepo.Plans.Hosts.{HasHost, Origin}
use bonerepo.Plans.Targets.{parse_plan-hosts, parse_plan-variables}
use bonerepo.Plans.{
  Element, PlanTarget, PlanSummary, http_sampler, branch_at, domain_of, domain_prop, port_prop,
  parse_plan,
}

abbrev sampler : Text → Element
sampler host = record {
  testclass = some (codes "HTTPSamplerProxy");
  testname = none;
  string_props = (some domain_prop, some host) ∷ (some port_prop, some (codes "80")) ∷ [];
}

abbrev config : Element
config = record {
  testclass = some (codes "ConfigTestElement");
  testname = none;
  string_props = (some domain_prop, some (codes "d.org")) ∷ [];
}

abbrev elements : List Element
elements = config ∷ sampler (codes "a.org") ∷ sampler [] ∷ []

abbrev fromstring : Text → Option (List Element)
fromstring text = some elements

abbrev document : Text
document = codes "x${A}${__P(b)}${C${B}}"

finds : find_variables document ≡ codes "A" ∷ codes "B" ∷ []
unfolding find_variables
finds = refl

abbrev summary : PlanSummary
summary = record {
  thread_groups = [];
  transaction_controllers = [];
  timers = [];
  variables = codes "A" ∷ codes "B" ∷ [];
  data_files = [];
  targets =
      record { scheme = codes "http"; host = codes "a.org"; port = some 80 }
      ∷ record { scheme = codes "http"; host = codes "d.org"; port = none }
      ∷ record { scheme = codes "http"; host = codes "d.org"; port = some 80 }
      ∷ [];
}

parses : parse_plan fromstring document ≡ some summary
unfolding parse_plan text_eq starts_with ends_with strip
parses = refl

parse_plan-hosts_example :
    ((e : Element)
      → Among e elements
      → branch_at e ≡ http_sampler
      → domain_of e ≢ []
      → HasHost (domain_of e) summary.targets)
    × ((t : PlanTarget) → Among t summary.targets → Origin elements t.host)
parse_plan-hosts_example = parse_plan-hosts fromstring document elements summary refl parses

parse_plan-variables_example : Among (codes "B") summary.variables ↔ Refers (codes "B") document
parse_plan-variables_example =
    parse_plan-variables fromstring document elements summary (codes "B") refl parses
