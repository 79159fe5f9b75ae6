-- ===== src/Contracts/Tests.antt =====
-- plimsoll_contracts/performance_tests.py
use bonerepo.Prelude.{ℕ, Bool, ◌&&◌, Option, List, ◌++◌, leb}
use bonerepo.Prelude.Texts.{Text, codes}
use bonerepo.Contracts.Updates.{Field, named}
use bonerepo.Store.Rows.{Workload, SlaMetric, SlaOperator, SlaSeverity}

pub record TestPlanSpec : Type 0 where
  pub script_repo_id : ℕ
  pub pinned_ref : Option Text
  pub virtual_users : ℕ
  pub execution_order : ℕ

pub record SlaRuleSpec : Type 0 where
  pub name : Text
  pub metric : SlaMetric
  pub entity : Option Text
  pub operator : SlaOperator
  pub threshold : Text
  pub unit : Option Text
  pub severity : SlaSeverity
  pub enabled : Bool

pub record TestCreate : Type 0 where
  pub name : Text
  pub description : Option Text
  pub configuration : Workload
  pub plans : List TestPlanSpec
  pub sla_rules : List SlaRuleSpec
  pub tags : List Text

pub record TestUpdate : Type 0 where
  pub version : ℕ
  pub name : Field Text
  pub description : Field Text
  pub configuration : Field Workload
  pub plans : Field (List TestPlanSpec)
  pub sla_rules : Field (List SlaRuleSpec)
  pub tags : Field (List Text)

-- The Field constraints and `_ramp_fits` of WorkloadSpec: false is a ValidationError.
unfoldable pub workload_accepts : Workload → Bool
workload_accepts w =
    leb 1 w.virtual_users && leb 1 w.duration_seconds && leb w.ramp_up_seconds w.duration_seconds

-- sorted(changes): the fields that were sent, of those in UPDATABLE
unfoldable pub changed_fields : TestUpdate → List Text
unfolding named
changed_fields b =
    named b.configuration (codes "configuration")
    ++ (named b.description (codes "description")
        ++ (named b.name (codes "name") ++ named b.tags (codes "tags")))
