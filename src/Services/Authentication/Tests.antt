-- ===== src/Services/Authentication/Tests.antt =====
-- A token that was rotated once, and is presented again.
use bonerepo.Prelude.{ℕ, ◌+◌, ◌≡◌, refl, none, some, [], ◌∷◌, ok, err, first, ◌++◌, Result}
use bonerepo.Prelude.Texts.{codes, text_eq, lower}
use bonerepo.Tokens.{AccessClaims}
use bonerepo.Store.Rows.{User, RefreshTokenFamily, active}
use bonerepo.Store.Table.{
  org_matches, visible, select_first, by_id, update_where, insert_row, taken,
}
use bonerepo.Store.{
  World, ◌>>=◌, pure, raise, draw, settle, session_for_org, Failure, or_raise, unless,
  bind_session_to_org, authentication_failed,
}
use bonerepo.Repositories.RefreshTokens as repo
use bonerepo.Services.Refresh.{rotate, rotate_found, rotate_live, organization_for, issue_family}
use bonerepo.Services.Authentication.{
  unauthorised, rotation, answer, in_scope, on_refresh_rejected, refresh_tokens, is_active,
  usable_hash, authenticate,
}
use bonerepo.Services.Authentication.Accounts.{IsAccount, family_of, authenticate-IsAccount}
use bonerepo.Services.Authentication.Replay.{refresh_tokens-replay}

-- A hash for the tests.
abbrev hash : ℕ → ℕ
hash raw = raw + 1000

abbrev family : RefreshTokenFamily
family = record {
  id = 5;
  organization_id = 1;
  user_id = 4;
  current_hash = 1007;
  revoked_at = none;
  expires_at = 100;
}

abbrev user : User
user = record {
  id = 4;
  organization_id = 1;
  email = codes "a@example.com";
  name = codes "A";
  password_hash = none;
  status = active;
  org_role = codes "VIEWER";
}

abbrev start : World
start = record {
  db = record {
    users = user ∷ [];
    projects = [];
    credentials = [];
    script_repos = [];
    performance_tests = [];
    test_plans = [];
    sla_rules = [];
    pools = [];
    runs = [];
    run_generators = [];
    audit_logs = [];
    target_policies = [];
    families = family ∷ [];
    history = record { token_hash = 1007; family_id = 5; organization_id = 1 } ∷ [];
  };
  org = none;
  session_org = none;
  now = 9;
  drawn = 10;
}

-- After the first rotation, of token 7 to token 10.
abbrev rotated : World
rotated = (refresh_tokens hash 50 (some 7) start).1

-- All that a refresh computes with.
runs : Unit {0}
unfolding first org_matches visible select_first by_id update_where insert_row taken ◌>>=◌ pure
    raise draw settle session_for_org repo.live_family repo.find_by_hash repo.set_hash
    repo.replace_hash repo.family_seen repo.revoke repo.is_family repo.revoke_family_containing
    repo.org_of_family repo.organization_for_token repo.record_history repo.get_profile rotate
    rotate_found rotate_live organization_for unauthorised rotation answer in_scope
    on_refresh_rejected refresh_tokens
runs = tt

rotation_gives_ten :
    (refresh_tokens hash 50 (some 7) start).0
    ≡ ok (record { user_id = 4; organization_id = 1; role = codes "VIEWER" }, 10)
unfolding runs
rotation_gives_ten = refl

-- The replay of token 7 leaves token 10 usable.
replay_leaves_ten_usable :
    (refresh_tokens hash 50 (some 10) (refresh_tokens hash 50 (some 7) rotated).1).0
    ≡ ok (record { user_id = 4; organization_id = 1; role = codes "VIEWER" }, 11)
unfolding runs
replay_leaves_ten_usable = refl

refresh_tokens-replay_example :
    ((refresh_tokens hash 50 (some 7) rotated).0 ≡ err unauthorised)
    × ((refresh_tokens hash 50 (some 7) rotated).1.db ≡ rotated.db)
unfolding runs
refresh_tokens-replay_example = refresh_tokens-replay hash 50 7 rotated refl

-- A world in which the account has a password, which verifies as it is stored.
abbrev registered : World
registered = record start {
  db = record start.db { users = record user { password_hash = some (codes "secret") } ∷ [] };
}

abbrev claimed : AccessClaims
claimed = record { user_id = 4; organization_id = 1; role = codes "VIEWER" }

abbrev signed_in : Result Failure (AccessClaims × ℕ) × World
signed_in = authenticate hash 50 text_eq (codes "A@example.com") (codes "secret") registered

-- All that a login computes with.
login_runs : Unit {0}
unfolding runs text_eq lower repo.lookup_for_login repo.insert_family is_active usable_hash or_raise
    unless bind_session_to_org issue_family authenticate
login_runs = tt

signed_in_as : signed_in.0 ≡ ok (claimed, 10)
unfolding login_runs
signed_in_as = refl

wrong_password_is_refused :
    (authenticate hash 50 text_eq (codes "A@example.com") (codes "guess") registered).0
    ≡ err authentication_failed
unfolding login_runs
wrong_password_is_refused = refl

authenticate-IsAccount_example :
    (u : User) × IsAccount text_eq (codes "A@example.com") (codes "secret") registered u
    × (claimed ≡ record { user_id = u.id; organization_id = u.organization_id; role = u.org_role })
    × (fresh : ℕ) × (signed_in.1.db.families
        ≡ registered.db.families ++ family_of claimed fresh (hash 10) 59 ∷ [])
unfolding login_runs
authenticate-IsAccount_example =
    authenticate-IsAccount hash 50 text_eq (codes "A@example.com") (codes "secret") registered
      claimed 10 signed_in.1 refl
