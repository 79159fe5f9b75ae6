-- ===== src/Lib.antt =====
-- Plimsoll, a platform for load tests: a model of the API server in apps/api/plimsoll_api, with the
-- contracts of packages/contracts/python/plimsoll_contracts, and what holds of it.
--
-- A request carries an access token, whose claims name a user, an organisation and a role. The
-- guard of the endpoint tests the role's permission, then the endpoint runs in one transaction
-- under the setting `app.current_org_id`, by which the row-level security of the database shows and
-- accepts the rows of that organisation only. The endpoint calls one service, the service calls
-- repositories, each of which is one SQL statement, and writes an audit row in the same
-- transaction. An exception rolls the transaction back and is answered by the error handlers.
--
-- Prelude holds the library names and the lemmas on lists, texts, tests and sorting.
-- Contracts is plimsoll_contracts: the error registry and the bodies of requests. A body of a PATCH
--   has fields that are absent, null or given, as `exclude_unset` tells them apart.
-- Errors is errors.py and middleware.py.
-- Permissions is security/permissions.py.
-- Net is the part of Python's ipaddress module that the target policy uses: parsing, membership and
--   overlap of networks.
-- TargetPolicy is the validation of an allowlist and the matching of a host in
--   services/target_policy.py. `validate_entries` and `matches_allowlist` are the functions of these
--   names; the body of each loop is a function of its own.
-- Store is the database: Store/Rows has a record for each table (db/models), Store/Table the
--   statements under the policy of migrations/versions/0003_row_level_security.py, and Store the
--   transaction of db/session.py as a function on a `World`: `set_config` is local to the
--   transaction or not, `session_org` is the setting that a COMMIT goes back to, and `settle`
--   commits, or rolls back to the tables and the setting at BEGIN. The tables are lists in the
--   order of insertion. Unique indexes and NOT NULL columns raise `integrity`, and so do the
--   primary and foreign keys of performance_tests, performance_test_plans and sla_rules.
-- Tokens has the claims of security/tokens.py.
-- Repositories is repositories/*.py, a function for each statement; Services is services/*.py, with
--   the refresh endpoint of routers/auth.py in Services/Authentication.
-- Api is the endpoints of routers/projects.py, pools.py, performance_tests.py and target_policy.py
--   on one resource: `Request` has a constructor for each, `permission_of` its guard, and `handle`
--   the guard and the transaction of dependencies.py. Api/Listings is their listings of projects and
--   of pools.
-- Pagination is pagination.py on both sides, with the statement that the `list_page` functions of the
--   repositories share; `get_page` is a page as it is meant to be, with which Api/Listings/Complete
--   compares the endpoints.
-- Git is git/client.py: `login` is `_workspace`, `resolve_ref` and `fetch_plan` are the functions of
--   these names, and Git/Paths the part of pathlib that they use.
-- Plans is plans/jmx.py, from the elements of the document on; Plans/Scanner is its regular
--   expression, Plans/Sets its sorted sets.
-- Preflight is services/preflight.py: Preflight/Inputs and Preflight/Hosts have the checks, Preflight
--   the two loops and `run`. The lists that a loop of the source fills are a function each.
-- Verify is services/verify.py, with Plans/Manifest for plans/manifest.py: `find_manifest` walks up
--   the names of a directory, `run` is the function of this name, and the steps between are the
--   branches of its try blocks.
-- Secrets is security/secrets.py, and Services/Credentials with Repositories/Credentials the
--   credentials.
--
-- Identifiers, timestamps, tokens and hashes are natural numbers, and a text is its list of code
-- points. A uuid or a token is drawn from a counter, so no value comes twice. The version of a test
-- and the capacity of a pool are int4, beyond which the statements raise; other numbers have no
-- bound. No model uses fuel: every loop is a recursion on a list, a text or a number.
--
-- Parameters: sha256, the check of a password and the lifetime of a token are arguments of
-- Services/Refresh and Services/Authentication; json, base64, datetime and uuid are the record
-- Codec of Pagination, with their round trips as laws; the git commands and the work tree are the
-- record Git, and the XML library is the argument `fromstring` of `parse_plan`; YAML and pydantic
-- are the record Yaml, AES-GCM is the record Cipher, with its round trip as a law. Git and the XML
-- library answer one input alike during a run.
--
-- Not modelled: the signing of tokens, argon2, script repositories and versions, the endpoints of
-- credentials, the endpoint that gathers the inputs of a preflight, the prose of error messages, the
-- engine's own concurrency (requests are a sequence), logging, configuration, readiness, seed data
-- and the web front end. Of the tables that are not named above, the primary and foreign keys are
-- left out. The texts of a plan's ports are ASCII, the version of an update is not negative, and the
-- time in a cursor has an offset. Rows that tie in an ORDER BY come in the order of insertion, where
-- PostgreSQL promises none.
pub mod Prelude
pub mod Contracts
pub mod Errors
pub mod Permissions
pub mod Net
pub mod TargetPolicy
pub mod Store
pub mod Tokens
pub mod Repositories
pub mod Services
pub mod Api
pub mod Pagination
pub mod Git
pub mod Plans
pub mod Preflight
pub mod Verify
pub mod Secrets
