-- ===== src/Plans.antt =====
-- apps/api/plimsoll_api/plans/jmx.py, from the elements that the XML library reads a document as.
pub mod Sets
pub mod Scanner
pub mod Variables
pub mod Hosts
pub mod Targets
pub mod Manifest
mod Tests
use bonerepo.Prelude.{
  ℕ, ◌+◌, ◌*◌, ◌-◌, Bool, true, false, not, ◌&&◌, ◌||◌, Option, none, some, List, [], ◌∷◌, ◌++◌,
  ltb, leb, ◌==◌, if◌then◌else◌, map, keep, all_of, any_of,
}
use bonerepo.Prelude.Texts.{
  Text, codes, text_eq, strip, is_empty, is_digit, is_letter, after_prefix, starts_with, ends_with,
}
use bonerepo.Prelude.Sorting.{sort, text_leb}
use bonerepo.Plans.Sets.{distinct, sorted_set, sorted_names}
use bonerepo.Plans.Scanner.{find_variables}

-- `element.get("testclass")`, `element.get("testname")`, and for each `stringProp` under it, its name
-- and its text.
pub record Element : Type 0 where
  pub testclass : Option Text
  pub testname : Option Text
  pub string_props : List (Option Text × Option Text)

pub record PlanTarget : Type 0 where
  pub scheme : Text
  pub host : Text
  pub port : Option ℕ

pub record PlanSummary : Type 0 where
  pub thread_groups : List Text
  pub transaction_controllers : List Text
  pub timers : List Text
  pub variables : List Text
  pub data_files : List Text
  pub targets : List PlanTarget

-- `value or other`, with "" for None
unfoldable pub or_else : Text → Text → Text
or_else [] other = other
or_else (c ∷ s) other = c ∷ s

unfoldable pub or_blank : Option Text → Text
or_blank none = []
or_blank (some s) = s

-- A dict by its entries in the order of insertion, of which the last counts.
abbrev pub Props : Type 0
Props = List (Text × Text)

unfoldable pub get : Text → Props → Option Text
unfolding text_eq
get key [] = none
get key ((k, v) ∷ props) = elim (get key props) [
  | some found ↦ some found
  | none ↦ if text_eq k key then some v else none
]

unfoldable pub string_props : Element → Props
unfolding or_blank strip
string_props element =
    map (λ (prop : Option Text × Option Text). (or_blank prop.0, strip (or_blank prop.1)))
      element.string_props

unfoldable pub name_of : Element → Text
unfolding or_blank strip
name_of element = strip (or_blank element.testname)

-- int(value), of digits
unfoldable pub decimal : ℕ → Text → ℕ
decimal n [] = n
decimal n (c ∷ s) = decimal (10 * n + (c - b'0')) s

-- `_port`, of a text of ASCII: isdigit also holds of other characters, some of which int refuses.
unfoldable pub port_of : Text → Option ℕ
unfolding decimal is_digit all_of is_empty
port_of value =
    if not (is_empty value) && all_of is_digit value then some (decimal 0 value) else none

abbrev pub domain_prop : Text
domain_prop = codes "HTTPSampler.domain"

abbrev pub port_prop : Text
port_prop = codes "HTTPSampler.port"

abbrev pub protocol_prop : Text
protocol_prop = codes "HTTPSampler.protocol"

-- The branch of the loop that a test class takes.
pub data Branch : Type 0 where
  thread_group transaction_controller timer csv_data_set config_element http_sampler : Branch
  no_branch : Branch

unfoldable pub branch_of : Text → Branch
unfolding ends_with text_eq
branch_of testclass =
    if ends_with (codes "ThreadGroup") testclass
    then thread_group
    else if text_eq testclass (codes "TransactionController")
    then transaction_controller
    else if ends_with (codes "Timer") testclass
    then timer
    else if text_eq testclass (codes "CSVDataSet")
    then csv_data_set
    else if text_eq testclass (codes "ConfigTestElement")
    then config_element
    else if text_eq testclass (codes "HTTPSamplerProxy")
    then http_sampler
    else no_branch

-- The variables of the loop.
pub record Found : Type 0 where
  pub thread_groups : List Text
  pub controllers : List Text
  pub timers : List Text
  pub data_files : List Text
  pub targets : List PlanTarget
  pub defaults : Props

-- `props.get(key, "")`
unfoldable pub value_of : Text → Props → Text
unfolding or_blank get
value_of key props = or_blank (get key props)

unfoldable pub target_at : Props → Props → Text → PlanTarget
unfolding or_else value_of port_of
target_at props defaults host = record {
  scheme =
      or_else (value_of protocol_prop props)
        (or_else (value_of protocol_prop defaults) (codes "http"));
  host = host;
  port = port_of (or_else (value_of port_prop props) (value_of port_prop defaults));
}

unfoldable pub add_file : Text → Found → Found
add_file [] found = found
add_file (c ∷ s) found = record found { data_files = found.data_files ++ (c ∷ s) ∷ [] }

unfoldable pub set_defaults : Props → Text → Found → Found
set_defaults props [] found = found
set_defaults props (c ∷ s) found = record found { defaults = props }

unfoldable pub add_target : Props → Text → Found → Found
unfolding target_at
add_target props [] found = found
add_target props (c ∷ s) found = record found {
  targets = found.targets ++ target_at props found.defaults (c ∷ s) ∷ [];
}

unfoldable pub domain_of : Element → Text
unfolding value_of string_props
domain_of element = value_of domain_prop (string_props element)

unfoldable pub take_branch : Branch → Element → Found → Found
unfolding name_of add_file set_defaults add_target domain_of or_else value_of string_props
take_branch thread_group e found = record found {
  thread_groups = found.thread_groups ++ name_of e ∷ [];
}
take_branch transaction_controller e found = record found {
  controllers = found.controllers ++ name_of e ∷ [];
}
take_branch timer e found = record found { timers = found.timers ++ name_of e ∷ [] }
take_branch csv_data_set e found = add_file (value_of (codes "filename") (string_props e)) found
take_branch config_element e found = set_defaults (string_props e) (domain_of e) found
take_branch http_sampler e found =
    add_target (string_props e) (or_else (domain_of e) (value_of domain_prop found.defaults)) found
take_branch no_branch e found = found

unfoldable pub branch_at : Element → Branch
unfolding branch_of or_blank
branch_at e = branch_of (or_blank e.testclass)

-- `for element in root.iter()`
unfoldable pub scan : List Element → Found → Found
unfolding take_branch branch_at
scan [] found = found
scan (e ∷ elements) found = scan elements (take_branch (branch_at e) e found)

unfoldable pub nothing_found : Found
nothing_found = record {
  thread_groups = [];
  controllers = [];
  timers = [];
  data_files = [];
  targets = [];
  defaults = [];
}

-- The target of the defaults, behind the loop.
unfoldable pub add_defaults : Found → Found
unfolding add_target value_of
add_defaults found = add_target [] (value_of domain_prop found.defaults) found

unfoldable pub same_port : Option ℕ → Option ℕ → Bool
same_port none none = true
same_port (some p) (some q) = p == q
same_port _ _ = false

unfoldable pub same_target : PlanTarget → PlanTarget → Bool
unfolding text_eq same_port
same_target t u = text_eq t.scheme u.scheme && text_eq t.host u.host && same_port t.port u.port

unfoldable pub port_or_zero : Option ℕ → ℕ
port_or_zero none = 0
port_or_zero (some port) = port

-- The order of (target.host, target.port or 0). Targets that tie stand in the order of the document,
-- where a Python set promises none.
unfoldable pub target_leb : PlanTarget → PlanTarget → Bool
unfolding text_eq text_leb port_or_zero
target_leb t u =
    if text_eq t.host u.host
    then leb (port_or_zero t.port) (port_or_zero u.port)
    else text_leb t.host u.host

unfoldable pub sorted_targets : List PlanTarget → List PlanTarget
unfolding distinct same_target sort target_leb
sorted_targets targets = sort target_leb (distinct same_target targets)

unfoldable pub summary_of : Text → Found → PlanSummary
unfolding sorted_names sorted_set find_variables sorted_targets
summary_of text found = record {
  thread_groups = sorted_names found.thread_groups;
  transaction_controllers = sorted_names found.controllers;
  timers = sorted_names found.timers;
  variables = sorted_set (find_variables text);
  data_files = sorted_set found.data_files;
  targets = sorted_targets found.targets;
}

unfoldable pub summary_from : Text → Option (List Element) → Option PlanSummary
unfolding summary_of add_defaults scan nothing_found
summary_from text none = none
summary_from text (some elements) =
    some (summary_of text (add_defaults (scan elements nothing_found)))

-- `fromstring` gives the elements in the order of `root.iter()`, none for a ParseError or a
-- ValueError; none is the PlanParseError.
unfoldable pub parse_plan : (Text → Option (List Element)) → Text → Option PlanSummary
unfolding summary_from
parse_plan fromstring text = summary_from text (fromstring text)
