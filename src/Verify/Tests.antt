-- ===== src/Verify/Tests.antt =====
-- A plan beside its data, and a manifest at the root of the checkout.
use bonerepo.Prelude.{
  ◌≡◌, refl, Bool, true, false, ◌||◌, Option, none, some, List, [], ◌∷◌, ◌↔◌, any_of, keep, first,
  if◌then◌else◌, ok, err,
}
use bonerepo.Prelude.Int.{pos}
use bonerepo.Prelude.Texts.{Text, codes, text_eq, starts_with, ends_with, strip, has_text}
use bonerepo.Contracts.Scripts.{is_inside}
use bonerepo.Git.{Git, GitAccess, Checkout, resolve_ref, fetch_plan}
use bonerepo.Git.Paths.{PurePath, path_of, join, same_names}
use bonerepo.Plans.{Element, parse_plan}
use bonerepo.Plans.Manifest.{Manifest, Yaml, mapping, key, finish, number, parse_manifest}
use bonerepo.Verify.Conforming.{IsOk}
use bonerepo.Verify.Search.{Nearest, find_manifest_iff, is_up}
use bonerepo.Verify.Accepted.{Verified, run-Verified}
use bonerepo.Verify.{plan_file, find_manifest, run}

abbrev plan_path : Text
plan_path = codes "perf/p.jmx"

abbrev root : List Text
root = codes "t" ∷ []

-- The files of the checkout.
abbrev is_there : List Text → Bool
is_there names =
    same_names names (codes "p.jmx" ∷ codes "perf" ∷ root)
    || same_names names (codes "a.csv" ∷ codes "perf" ∷ root)
    || same_names names (codes "plimsoll.yaml" ∷ root)

abbrev tree : Checkout
tree = record {
  root = record { absolute = true; names = root };
  is_file = λ p. is_there p.names;
  read_text = λ p. if is_there p.names then some (codes "${A}") else none;
}

abbrev git : Git
git = record {
  decode = λ s. s;
  ls_remote = λ _ _ _. some (codes "0123456789abcdef0123456789abcdef01234567\trefs/heads/main\n");
  checkout = λ _ _ _ _. some tree;
}

abbrev fromstring : Text → Option (List Element)
fromstring text = some (
    record {
      testclass = some (codes "CSVDataSet");
      testname = none;
      string_props = (some (codes "filename"), some (codes "a.csv")) ∷ [];
    }
    ∷ [])

abbrev manifest : List Text → Manifest
manifest variables = record {
  version = pos 1;
  engine = codes "jmeter";
  jmeter_version = none;
  plugins = [];
  plans = record { path = plan_path; data_files = codes "a.csv" ∷ []; variables = variables } ∷ [];
}

abbrev yaml : List Text → Yaml
yaml variables = record {
  safe_load = λ text. some (mapping (key (codes "version") (number (some (pos 1))) finish));
  model_validate = λ entries. some (manifest variables);
}

abbrev access : GitAccess
access = record { url = codes "https://h/r"; kind = none; secret = none }

abbrev is_ok : List Text → Option Bool
is_ok variables = elim (run git fromstring (yaml variables) access plan_path (codes "main")) [
  | ok report ↦ some report.ok
  | err e ↦ none
]

declared_is_ok : is_ok (codes "A" ∷ []) ≡ some true
unfolding run resolve_ref fetch_plan parse_plan parse_manifest text_eq strip ends_with starts_with
    same_names path_of first keep any_of has_text join
declared_is_ok = refl

undeclared_is_error : is_ok [] ≡ some false
unfolding run resolve_ref fetch_plan parse_plan parse_manifest text_eq strip ends_with starts_with
    same_names path_of first keep any_of has_text join
undeclared_is_error = refl

run-Verified_example :
    IsOk (run git fromstring (yaml (codes "A" ∷ [])) access plan_path (codes "main"))
    ↔ Verified git fromstring (yaml (codes "A" ∷ [])) access plan_path (codes "main")
run-Verified_example =
    run-Verified git fromstring (yaml (codes "A" ∷ [])) access plan_path (codes "main")

inside : is_inside plan_path ≡ true
unfolding is_inside
inside = refl

names : (path_of plan_path).names ≡ codes "p.jmx" ∷ codes "perf" ∷ []
unfolding path_of
names = refl

find_manifest_iff_example :
    ((plan_file tree plan_path).names ≡ codes "p.jmx" ∷ codes "perf" ∷ root)
    × (any_of is_up (codes "p.jmx" ∷ codes "perf" ∷ []) ≡ false)
    × ((p : PurePath)
        → (find_manifest tree plan_path ≡ some p) ↔ Nearest tree.is_file root (codes "perf" ∷ []) p)
find_manifest_iff_example =
    find_manifest_iff plan_path inside tree (codes "p.jmx") (codes "perf" ∷ []) names
