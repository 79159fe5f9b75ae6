-- ===== src/Store/Rows.antt =====
-- apps/api/plimsoll_api/db/models and migrations 0002 and 0004: a record for each table that the
-- services read or write. A uuid and a timestamp are numbers, a JSON value that is only stored is
-- its text, and a column that holds one of a fixed set of words is an enumeration. The columns
-- that no operation here computes with are left out.
use bonerepo.Prelude.{ℕ, Bool, Option, List}
use bonerepo.Prelude.Texts.{Text}

pub data RowStatus : Type 0 where
  draft active archived : RowStatus

pub record User : Type 0 where
  pub id : ℕ
  pub organization_id : ℕ
  pub email : Text
  pub name : Text
  pub password_hash : Option Text
  pub status : RowStatus
  pub org_role : Text

pub record Project : Type 0 where
  pub id : ℕ
  pub organization_id : ℕ
  pub name : Text
  pub project_key : Text
  pub description : Option Text
  pub environment : Option Text
  pub status : RowStatus
  pub tags : List Text
  pub created_by : Option ℕ
  pub created_at : ℕ
  pub updated_at : ℕ

pub data CredentialKind : Type 0 where
  git_token git_ssh_key variable : CredentialKind

pub record Credential : Type 0 where
  pub id : ℕ
  pub organization_id : ℕ
  pub name : Text
  pub kind : CredentialKind
  pub ciphertext : List ℕ
  pub key_ref : Text
  pub created_by : Option ℕ
  pub created_at : ℕ

pub record ScriptRepo : Type 0 where
  pub id : ℕ
  pub organization_id : ℕ
  pub project_id : ℕ
  pub name : Text
  pub repo_url : Text
  pub default_ref : Text
  pub plan_path : Text
  pub credential_id : Option ℕ
  pub status : RowStatus
  pub created_by : Option ℕ
  pub created_at : ℕ
  pub updated_at : ℕ

-- The workload under `configuration`.
pub record Workload : Type 0 where
  pub virtual_users : ℕ
  pub duration_seconds : ℕ
  pub ramp_up_seconds : ℕ
  pub generator_pool_id : ℕ

pub record PerformanceTest : Type 0 where
  pub id : ℕ
  pub organization_id : ℕ
  pub project_id : ℕ
  pub name : Text
  pub description : Option Text
  pub status : RowStatus
  -- JSON null is `none`
  pub configuration : Option Workload
  pub version : ℕ
  pub tags : List Text
  pub created_by : Option ℕ
  pub created_at : ℕ
  pub updated_at : ℕ

pub record PerformanceTestPlan : Type 0 where
  pub id : ℕ
  pub organization_id : ℕ
  pub performance_test_id : ℕ
  pub script_repo_id : ℕ
  pub pinned_ref : Option Text
  pub virtual_users : ℕ
  pub execution_order : ℕ

pub data SlaMetric : Type 0 where
  p50 p90 p95 p99 avg error_rate throughput : SlaMetric

pub data SlaOperator : Type 0 where
  lt lte gt gte : SlaOperator

pub data SlaSeverity : Type 0 where
  error warning : SlaSeverity

pub record SlaRule : Type 0 where
  pub id : ℕ
  pub organization_id : ℕ
  pub performance_test_id : ℕ
  pub name : Text
  pub metric : SlaMetric
  pub entity : Option Text
  pub operator : SlaOperator
  -- a float, as its text
  pub threshold : Text
  pub unit : Option Text
  pub severity : SlaSeverity
  pub enabled : Bool

pub data PoolRuntime : Type 0 where
  docker kubernetes : PoolRuntime

pub record GeneratorPool : Type 0 where
  pub id : ℕ
  pub organization_id : ℕ
  pub name : Text
  pub runtime : PoolRuntime
  pub config : Text
  pub region : Option Text
  pub max_generators : ℕ
  pub max_vus_per_generator : ℕ
  pub status : RowStatus
  pub created_at : ℕ
  pub updated_at : ℕ

-- The states of a run that the queries name, and the rest.
pub data RunStatus : Type 0 where
  queued starting running stopping finished : RunStatus

pub record TestRun : Type 0 where
  pub id : ℕ
  pub organization_id : ℕ
  pub project_id : ℕ
  pub performance_test_id : ℕ
  pub run_number : ℕ
  pub status : RunStatus

pub record RunGenerator : Type 0 where
  pub id : ℕ
  pub organization_id : ℕ
  pub run_id : ℕ
  pub pool_id : ℕ
  pub ordinal : ℕ
  pub assigned_users : ℕ

pub data AuditAction : Type 0 where
  project_created project_updated project_deleted : AuditAction
  pool_created pool_updated pool_deleted : AuditAction
  test_created test_updated test_deleted test_validated : AuditAction
  script_repo_created script_repo_updated script_repo_deleted : AuditAction
  credential_created credential_deleted : AuditAction
  target_policy_updated : AuditAction

-- The `metadata` that the services pass, a constructor for each shape.
pub data AuditMetadata : Type 0 where
  project_key : Text → AuditMetadata
  fields : List Text → AuditMetadata
  runtime : PoolRuntime → AuditMetadata
  plans_and_rules : ℕ → ℕ → AuditMetadata
  fields_and_version : List Text → ℕ → AuditMetadata
  url_and_path : Text → Text → AuditMetadata
  kind : CredentialKind → AuditMetadata
  version_and_entries : ℕ → ℕ → AuditMetadata
  ok_and_failed : Bool → List Text → AuditMetadata

pub record AuditLog : Type 0 where
  pub id : ℕ
  pub organization_id : ℕ
  pub user_id : Option ℕ
  pub action : AuditAction
  pub entity_id : Option ℕ
  pub metadata : Option AuditMetadata
  pub created_at : ℕ

pub record TargetPolicy : Type 0 where
  pub id : ℕ
  pub organization_id : ℕ
  pub version : ℕ
  pub allowlist : List Text
  pub created_by : Option ℕ
  pub created_at : ℕ

pub record RefreshTokenFamily : Type 0 where
  pub id : ℕ
  pub organization_id : ℕ
  pub user_id : ℕ
  pub current_hash : ℕ
  pub revoked_at : Option ℕ
  pub expires_at : ℕ

pub record RefreshTokenHistory : Type 0 where
  pub token_hash : ℕ
  pub family_id : ℕ
  pub organization_id : ℕ
