-- ===== src/Services/Credentials/Tests.antt =====
-- A credential that is created, and one that a script repository uses.
use bonerepo.Prelude.{
  ◌≡◌, ◌<◌, refl, ap, true, false, none, some, List, [], ◌∷◌, Among, here, there, ok, err, first,
  any_of, keep, arith,
}
use bonerepo.Prelude.Texts.{Text, codes, text_eq}
use bonerepo.Prelude.Sorting.{sort}
use bonerepo.Contracts.Errors.{resource_in_use, script_repos}
use bonerepo.Contracts.Credentials.{CredentialCreate}
use bonerepo.Store.Rows.{Credential, ScriptRepo, git_token, active}
use bonerepo.Store.Table.{
  org_matches, visible, select, select_first, by_id, delete_where, insert_row, taken,
}
use bonerepo.Store.{
  credential_tenant, script_repo_tenant, World, ◌>>=◌, plimsoll, pure, raise, or_raise, draw,
  on_integrity,
}
use bonerepo.Tokens.{AccessClaims}
use bonerepo.Secrets.{Cipher, local_key_ref, drop, encrypt, opened, decrypt}
use bonerepo.Repositories.Audit
use bonerepo.Repositories.Credentials as repo
use bonerepo.Services.Audit.{note}
use bonerepo.Services.Credentials.{
  create, decrypted, secret_for, secret_named, refuse_in_use, delete,
}
use bonerepo.Services.Credentials.Recalled.{create-secret}
use bonerepo.Services.Credentials.Deletion.{delete_lem}

-- A cipher for the tests, which hides nothing.
abbrev cipher : Cipher
cipher = record {
  nonce_of = λ n. 0 ∷ 0 ∷ 0 ∷ 0 ∷ 0 ∷ 0 ∷ 0 ∷ 0 ∷ 0 ∷ 0 ∷ 0 ∷ n ∷ [];
  nonce_bytes = λ n. refl;
  seal = λ nonce plaintext. plaintext;
  open_sealed = λ nonce body. some body;
  open_sealed-seal = λ nonce plaintext. refl;
}

abbrev admin : AccessClaims
admin = record { user_id = 4; organization_id = 1; role = codes "ORG_ADMIN" }

abbrev body : CredentialCreate
body = record { name = codes "TOKEN"; kind = git_token; secret = codes "s3" }

abbrev old : Credential
old = record {
  id = 2;
  organization_id = 1;
  name = codes "OLD";
  kind = git_token;
  ciphertext = [];
  key_ref = local_key_ref;
  created_by = none;
  created_at = 1;
}

abbrev shop : ScriptRepo
shop = record {
  id = 3;
  organization_id = 1;
  project_id = 7;
  name = codes "shop";
  repo_url = codes "https://h/r";
  default_ref = codes "main";
  plan_path = codes "p.jmx";
  credential_id = some 2;
  status = active;
  created_by = none;
  created_at = 1;
  updated_at = 1;
}

abbrev start : World
start = record {
  db = record {
    users = [];
    projects = [];
    credentials = old ∷ [];
    script_repos = shop ∷ [];
    performance_tests = [];
    test_plans = [];
    sla_rules = [];
    pools = [];
    runs = [];
    run_generators = [];
    audit_logs = [];
    target_policies = [];
    families = [];
    history = [];
  };
  org = some 1;
  session_org = none;
  now = 9;
  drawn = 10;
}

-- All that these services compute with.
runs : Unit {0}
unfolding first any_of keep text_eq org_matches visible select select_first by_id delete_where
    insert_row taken ◌>>=◌ pure raise or_raise draw on_integrity drop encrypt opened decrypt
    Audit.store Audit.insert note repo.same_name repo.put repo.store repo.credential_row repo.insert
    repo.get repo.secret_material repo.by_name repo.refers_to repo.referencing_in
    repo.referencing_repos repo.is_found repo.delete sort create decrypted secret_for secret_named
    refuse_in_use delete
runs = tt

abbrev row : Credential
row =
    repo.credential_row 1 4 body (0 ∷ 0 ∷ 0 ∷ 0 ∷ 0 ∷ 0 ∷ 0 ∷ 0 ∷ 0 ∷ 0 ∷ 0 ∷ 10 ∷ codes "s3")
      local_key_ref 11 9

abbrev created : World
created = (create cipher admin body start).1

creates : create cipher admin body start ≡ (ok row, created)
unfolding runs
creates = refl

drawn_before : (r : Credential) → Among r start.db.credentials → r.id < start.drawn
drawn_before r (here e) = omega (arith, ap (λ (s : Credential). s.id) e)
drawn_before r (there m) = elim m [ ]

create-secret_example :
    (secret_for cipher row.id created ≡ (ok (some (codes "s3")), created))
    × (secret_named cipher (codes "TOKEN") created ≡ (ok (some (codes "s3")), created))
create-secret_example = create-secret cipher admin body start row created drawn_before creates

delete_lem_example :
    ((c : Credential) (r : ScriptRepo)
      → by_id start.org 2 start.db.credentials ≡ some c
      → Among r start.db.script_repos
      → visible start.org r ≡ true
      → repo.refers_to 2 r ≡ true
      → (names : List Text) × Among r.name names
        × (delete admin 2 start ≡ (
          err (plimsoll (record { code = resource_in_use; details = some (script_repos names) })),
          start,
        )))
    × ((w' : World)
        → delete admin 2 start ≡ (ok tt, w')
        → (by_id w'.org 2 w'.db.credentials ≡ none)
          × ((r : ScriptRepo) → Among r w'.db.script_repos → repo.refers_to 2 r ≡ false))
delete_lem_example = delete_lem admin 2 start

is_used : delete admin 2 start ≡ (
  err (
      plimsoll
        (record { code = resource_in_use; details = some (script_repos (codes "shop" ∷ [])) })),
  start,
)
unfolding runs
is_used = refl
