-- ===== src/Api/Runs.antt =====
-- All that a request computes with.
use bonerepo.Prelude.{keep, first, any_of}
use bonerepo.Prelude.Texts.{text_eq}
use bonerepo.Prelude.Sorting.{place, sort, text_leb}
use bonerepo.Contracts.Updates.{is_absent, is_null, set_nullable, set_required, named}
use bonerepo.Contracts.Projects as project_bodies
use bonerepo.Contracts.Pools as pool_bodies
use bonerepo.Contracts.Tests as test_bodies
use bonerepo.Permissions.{permissions_for, same_permission, holds}
use bonerepo.Store.Table.{
  org_matches, visible, select, select_first, by_id, update_where, delete_where, insert_row, taken,
  is_int4,
}
use bonerepo.Store.{
  pure, raise, gets, modify, ◌>>=◌, draw, unless, or_raise, on_integrity, settle, session_for_org,
}
use bonerepo.Repositories.Audit as audit
use bonerepo.Repositories.Projects as projects_repo
use bonerepo.Repositories.Pools as pools_repo
use bonerepo.Repositories.PerformanceTests as tests_repo
use bonerepo.Repositories.TargetPolicies as policies_repo
use bonerepo.TargetPolicy.Runs as policy
use bonerepo.Services.TargetPolicies as policies
use bonerepo.Services.Audit.{note}
use bonerepo.Services.Projects as projects
use bonerepo.Services.Pools as pools
use bonerepo.Services.PerformanceTests as tests
use bonerepo.Api.{
  permission_of, updated, test_response, pool_response, policy_response, endpoint, handle,
}
use bonerepo.Api.Versions.Requests.{run}

unfoldable pub runs : Unit {0}
unfolding keep first any_of text_eq place sort text_leb is_absent is_null set_nullable set_required
    named project_bodies.no_changes project_bodies.changed_fields pool_bodies.no_changes
    pool_bodies.changed_fields test_bodies.changed_fields permissions_for same_permission holds
    org_matches visible select select_first by_id update_where delete_where insert_row taken is_int4
    pure raise gets modify ◌>>=◌ draw unless or_raise on_integrity settle session_for_org
    audit.store audit.insert projects_repo.store projects_repo.insert projects_repo.get
    projects_repo.update_found projects_repo.update projects_repo.archive_found
    projects_repo.archive pools_repo.store pools_repo.insert pools_repo.get pools_repo.update_found
    pools_repo.update pools_repo.archive pools_repo.archive_found tests_repo.put
    tests_repo.put_plans tests_repo.put_rules tests_repo.has_author tests_repo.keys_hold
    tests_repo.has_test tests_repo.plan_keys_hold tests_repo.rule_keys_hold tests_repo.store
    tests_repo.test_row tests_repo.insert tests_repo.get tests_repo.nulls_required
    tests_repo.set_configuration tests_repo.apply tests_repo.at_version tests_repo.update_found
    tests_repo.update_document tests_repo.store_plan tests_repo.delete_plans tests_repo.plan_row
    tests_repo.insert_plans tests_repo.replace_plans tests_repo.store_rule tests_repo.delete_rules
    tests_repo.rule_row tests_repo.insert_rules tests_repo.replace_sla_rules tests_repo.plan_spec
    tests_repo.rule_spec tests_repo.plan_before tests_repo.rule_before tests_repo.plans_for
    tests_repo.sla_rules_for tests_repo.is_archived tests_repo.mark_archived
    tests_repo.archive_found tests_repo.archive note projects.create projects.require
    projects.update projects.archive pools.create pools.require pools.update pools.archive
    tests.is_missing tests.missing_repos tests.pool_problem tests.no_problems tests.check_references
    tests.document tests.create tests.require tests.effective_configuration tests.effective
    tests.is_given tests.recheck tests.replace_given_plans tests.replace_given_rules
    tests.after_update tests.update tests.archive permission_of updated test_response pool_response
    policy_response endpoint handle run policy.runs policies_repo.newer policies_repo.newest
    policies_repo.current_row policies_repo.current policies_repo.version_of policies_repo.store
    policies_repo.insert_next_version policies.lifted policies.replace policies.current_policy
runs = tt
