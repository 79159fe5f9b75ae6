-- ===== src/Repositories/Credentials.antt =====
-- repositories/credentials.py
use bonerepo.Store.{
  credential_tenant, script_repo_tenant, ◌>>=◌, World, Exec, policy, integrity, draw, current_time,
}
use bonerepo.Prelude.{
  ℕ, Bool, true, false, ◌&&◌, Option, some, none, ok, err, List, ◌==◌, if◌then◌else◌, map, any_of,
}
use bonerepo.Prelude.Texts.{Text, text_eq}
use bonerepo.Prelude.Sorting.{sort, text_leb}
use bonerepo.Contracts.Credentials.{CredentialCreate}
use bonerepo.Store.Rows.{Credential, CredentialKind, variable, ScriptRepo}
use bonerepo.Store.Table.{visible, by_id, select, select_first, delete_where, insert_row, taken}

-- UNIQUE (organization_id, name)
unfoldable pub same_name : Credential → Credential → Bool
same_name r s = s.organization_id == r.organization_id && text_eq s.name r.name

unfoldable pub put : List Credential → World → World
put rows w = record w { db = record w.db { credentials = rows } }

unfoldable pub store : Credential → Exec Credential
unfolding same_name put
store r w =
    if visible w.org r
    then if taken (same_name r) w.db.credentials
      then (err integrity, w)
      else (ok r, put (insert_row r w.db.credentials) w)
    else (err policy, w)

unfoldable pub credential_row : ℕ → ℕ → CredentialCreate → List ℕ → Text → ℕ → ℕ → Credential
credential_row org_id created_by body ciphertext key_ref fresh now = record {
  id = fresh;
  organization_id = org_id;
  name = body.name;
  kind = body.kind;
  ciphertext = ciphertext;
  key_ref = key_ref;
  created_by = some created_by;
  created_at = now;
}

unfoldable pub insert : ℕ → ℕ → CredentialCreate → List ℕ → Text → Exec Credential
unfolding credential_row
insert org_id created_by body ciphertext key_ref = do
  fresh ← draw
  now ← current_time
  store (credential_row org_id created_by body ciphertext key_ref fresh now)

unfoldable pub get : ℕ → Exec (Option Credential)
get credential_id w = (ok (by_id w.org credential_id w.db.credentials), w)

-- The same row, of which another SELECT takes the ciphertext, the key's name and the kind.
unfoldable pub secret_material : ℕ → Exec (Option Credential)
secret_material credential_id w = (ok (by_id w.org credential_id w.db.credentials), w)

unfoldable pub by_name : Text → Exec (Option Credential)
by_name name w = (ok (select_first w.org (λ r. text_eq r.name name) w.db.credentials), w)

unfoldable pub is_variable : CredentialKind → Bool
is_variable variable = true
is_variable _ = false

unfoldable pub variable_material : Exec (List Credential)
unfolding is_variable sort
variable_material w = (
  ok (
      sort (λ r s. text_leb r.name s.name)
        (select w.org (λ r. is_variable r.kind) w.db.credentials)),
  w,
)

unfoldable pub refers_to : ℕ → ScriptRepo → Bool
refers_to credential_id r = elim r.credential_id [ none ↦ false | some id ↦ id == credential_id ]

unfoldable pub referencing_in : Option ℕ → ℕ → List ScriptRepo → List Text
unfolding refers_to sort
referencing_in org credential_id rows =
    sort text_leb (map (λ (r : ScriptRepo). r.name) (select org (refers_to credential_id) rows))

unfoldable pub referencing_repos : ℕ → Exec (List Text)
unfolding referencing_in
referencing_repos credential_id w = (ok (referencing_in w.org credential_id w.db.script_repos), w)

unfoldable pub is_found : {A : Type 0} → Option A → Bool
is_found none = false
is_found (some a) = true

-- A script repository refers to its credential, by a foreign key that no policy limits.
unfoldable pub delete : ℕ → Exec Bool
unfolding is_found put refers_to
delete credential_id w =
    let found = is_found (by_id w.org credential_id w.db.credentials) in
    if found && any_of (refers_to credential_id) w.db.script_repos
    then (err integrity, w)
    else (ok found, put (delete_where w.org (λ r. r.id == credential_id) w.db.credentials) w)
