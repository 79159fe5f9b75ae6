-- ===== src/Store.antt =====
-- The database, and a request's transaction on it: db/session.py, and what PostgreSQL and the
-- driver do for it. `Store/Rows` has the tables' rows, `Store/Table` the statements under row-level
-- security, `Store/Keeps` the rules for
-- invariants of actions, `Store/Confined` what it is to leave the other organisations alone.
pub mod Rows
pub mod Table
pub mod Keeps
pub mod Results
pub mod Confined
use bonerepo.Prelude.{
  ℕ, suc, Option, none, some, List, Bool, true, false, Result, ok, err, if◌then◌else◌,
}
use bonerepo.Errors.{PlimsollError}
use bonerepo.Store.Rows.{
  User, Project, Credential, ScriptRepo, PerformanceTest, PerformanceTestPlan, SlaRule,
  GeneratorPool, TestRun, RunGenerator, AuditLog, TargetPolicy, RefreshTokenFamily,
  RefreshTokenHistory,
}
use bonerepo.Store.Table.{Tenant}

pub record Db : Type 0 where
  pub users : List User
  pub projects : List Project
  pub credentials : List Credential
  pub script_repos : List ScriptRepo
  pub performance_tests : List PerformanceTest
  pub test_plans : List PerformanceTestPlan
  pub sla_rules : List SlaRule
  pub pools : List GeneratorPool
  pub runs : List TestRun
  pub run_generators : List RunGenerator
  pub audit_logs : List AuditLog
  pub target_policies : List TargetPolicy
  pub families : List RefreshTokenFamily
  pub history : List RefreshTokenHistory

instance abbrev pub user_tenant : Tenant User
user_tenant = record { org_of = λ r. r.organization_id; id_of = λ r. r.id }

instance abbrev pub project_tenant : Tenant Project
project_tenant = record { org_of = λ r. r.organization_id; id_of = λ r. r.id }

instance abbrev pub credential_tenant : Tenant Credential
credential_tenant = record { org_of = λ r. r.organization_id; id_of = λ r. r.id }

instance abbrev pub script_repo_tenant : Tenant ScriptRepo
script_repo_tenant = record { org_of = λ r. r.organization_id; id_of = λ r. r.id }

instance abbrev pub test_tenant : Tenant PerformanceTest
test_tenant = record { org_of = λ r. r.organization_id; id_of = λ r. r.id }

instance abbrev pub test_plan_tenant : Tenant PerformanceTestPlan
test_plan_tenant = record { org_of = λ r. r.organization_id; id_of = λ r. r.id }

instance abbrev pub sla_rule_tenant : Tenant SlaRule
sla_rule_tenant = record { org_of = λ r. r.organization_id; id_of = λ r. r.id }

instance abbrev pub pool_tenant : Tenant GeneratorPool
pool_tenant = record { org_of = λ r. r.organization_id; id_of = λ r. r.id }

instance abbrev pub run_tenant : Tenant TestRun
run_tenant = record { org_of = λ r. r.organization_id; id_of = λ r. r.id }

instance abbrev pub run_generator_tenant : Tenant RunGenerator
run_generator_tenant = record { org_of = λ r. r.organization_id; id_of = λ r. r.id }

instance abbrev pub audit_log_tenant : Tenant AuditLog
audit_log_tenant = record { org_of = λ r. r.organization_id; id_of = λ r. r.id }

instance abbrev pub target_policy_tenant : Tenant TargetPolicy
target_policy_tenant = record { org_of = λ r. r.organization_id; id_of = λ r. r.id }

instance abbrev pub family_tenant : Tenant RefreshTokenFamily
family_tenant = record { org_of = λ r. r.organization_id; id_of = λ r. r.id }

-- The key of a history row is its hash.
instance abbrev pub history_tenant : Tenant RefreshTokenHistory
history_tenant = record { org_of = λ r. r.organization_id; id_of = λ r. r.token_hash }

-- What a session reads and writes: the tables, the setting `app.current_org_id`, the value that a
-- COMMIT gives it, the time, and how many random values (uuid4, token_urlsafe) have been drawn; no
-- value is drawn twice.
pub record World : Type 0 where
  pub db : Db
  pub org : Option ℕ
  pub session_org : Option ℕ
  pub now : ℕ
  pub drawn : ℕ

-- What may be raised inside a transaction.
pub data Failure : Type 0 where
  plimsoll : PlimsollError → Failure
  -- sqlalchemy.exc.IntegrityError
  integrity : Failure
  -- a row that WITH CHECK refuses
  policy : Failure
  authentication_failed refresh_rejected : Failure
  secret_error : Failure
  -- any other exception, a pydantic ValidationError on stored data for one
  unexpected : Failure

abbrev pub Exec : Type 0 → Type 0
Exec A = World → Result Failure A × World

module _ {A : Type 0} where
  unfoldable pub pure : A → Exec A
  pure a w = (ok a, w)

  unfoldable pub raise : Failure → Exec A
  raise e w = (err e, w)

  unfoldable pub gets : (World → A) → Exec A
  gets f w = (ok (f w), w)

  abbrev pub continue :
      {B : Type 0} → Result Failure A × World → (A → Exec B) → Result Failure B × World
  continue (ok a, w) f = f a w
  continue (err e, w) f = (err e, w)

unfoldable pub modify : (World → World) → Exec (Unit {0})
modify f w = (ok tt, f w)

-- now(), datetime.now(UTC)
abbrev pub current_time : Exec ℕ
current_time = gets (λ w. w.now)

infixl 5 ◌>>=◌ ◌>>◌
unfoldable pub ◌>>=◌ : {A B : Type 0} → Exec A → (A → Exec B) → Exec B
unfolding pure raise gets modify
◌>>=◌ m f w = continue (m w) f

abbrev pub ◌>>◌ : {B : Type 0} → Exec (Unit {0}) → Exec B → Exec B
m >> k = m >>= λ _. k

-- uuid.uuid4(), secrets.token_urlsafe(48)
unfoldable pub draw : Exec ℕ
draw w = (ok w.drawn, record w { drawn = suc w.drawn })

-- A call that computes, or raises.
unfoldable pub lift : {A : Type 0} → Result Failure A → Exec A
lift r w = (r, w)

-- `if not ok: raise`
unfoldable pub unless : Bool → Failure → Exec (Unit {0})
unless true e w = (ok tt, w)
unless false e w = (err e, w)

-- `if row is None: raise`
unfoldable pub or_raise : {A : Type 0} → Failure → Option A → Exec A
or_raise e none w = (err e, w)
or_raise e (some a) w = (ok a, w)

-- `except IntegrityError as exc: raise ... from exc`
recast : {A : Type 0} → Failure → Result Failure A × World → Result Failure A × World
recast e (err integrity, w) = (err e, w)
recast e r = r

unfoldable pub on_integrity : {A : Type 0} → Failure → Exec A → Exec A
unfolding recast
on_integrity e m w = recast e (m w)

-- set_config('app.current_org_id', org, is_local): the setting outlives the transaction unless it is
-- local.
abbrev pub set_config : Bool → ℕ → World → World
set_config is_local o w = record w {
  org = some o;
  session_org = if is_local then w.session_org else some o;
}

-- `bind_session_to_org`: set_config inside the open transaction
unfoldable pub bind_session_to_org : ℕ → Exec (Unit {0})
bind_session_to_org o w = (ok tt, set_config true o w)

-- BEGIN: the setting is the session's.
abbrev pub begin : World → World
begin w = record w { session_org = w.org }

-- ROLLBACK goes back to the tables and the setting at BEGIN.
abbrev pub rollback : World → World → World
rollback before w = record w { db = before.db; org = before.org; session_org = before.org }

-- COMMIT ends what is local to the transaction.
abbrev pub commit : World → World
commit w = record w { org = w.session_org }

-- `if org_id is not None: ...`
abbrev pub scope : Option ℕ → World → World
scope none w = w
scope (some o) w = set_config true o w

-- `session.begin()` as a context manager: it commits, or rolls back and raises again.
unfoldable pub settle : {A : Type 0} → World → Result Failure A × World → Result Failure A × World
settle before (ok a, w) = (ok a, commit w)
settle before (err e, w) = (err e, rollback before w)

-- `session_for_org`
unfoldable pub session_for_org : {A : Type 0} → Option ℕ → Exec A → World → Result Failure A × World
unfolding settle
session_for_org o block w = settle w (block (scope o (begin w)))
