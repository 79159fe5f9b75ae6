-- ===== src/Contracts/Scripts.antt =====
-- plimsoll_contracts/scripts.py: what its validators accept, and the report of a verification, with
-- what the sentence of a finding names in place of the sentence.
use bonerepo.Prelude.{Bool, not, ◌||◌, Option, List, [], ◌∷◌, any_of}
use bonerepo.Prelude.Texts.{Text, codes, text_eq, starts_with, split_on}
use bonerepo.Plans.{PlanSummary}

-- ALLOWED_SCHEMES
abbrev pub allowed_schemes : List Text
allowed_schemes = codes "http://" ∷ codes "https://" ∷ codes "ssh://" ∷ codes "git@" ∷ []

-- `_supported_scheme` accepts.
unfoldable pub is_supported : Text → Bool
unfolding any_of starts_with
is_supported value = any_of (λ scheme. starts_with scheme value) allowed_schemes

-- `_inside_the_repository` accepts.
unfoldable pub is_inside : Text → Bool
unfolding any_of text_eq starts_with split_on
is_inside value =
    not (starts_with (codes "/") value || any_of (text_eq (codes "..")) (split_on b'/' value))

pub data FindingSeverity : Type 0 where
  error warning : FindingSeverity

pub data FindingCode : Type 0 where
  plan_missing plan_unparseable target_unresolved manifest_invalid plan_not_declared : FindingCode
  data_file_missing data_file_undeclared variable_not_declared : FindingCode

pub record Finding : Type 0 where
  pub code : FindingCode
  pub severity : FindingSeverity
  pub names : List Text
  pub location : Option Text

pub record PluginSummary : Type 0 where
  pub id : Text
  pub version : Text
  pub sha256 : Text

pub record VerifyReport : Type 0 where
  pub ok : Bool
  pub commit_sha : Text
  pub ref : Text
  pub findings : List Finding
  pub plan : Option PlanSummary
  pub plugins : List PluginSummary
