-- ===== src/Services/Credentials.antt =====
-- services/credentials.py
pub mod Sealed
pub mod Recalled
pub mod Deletion
mod Tests
use bonerepo.Store.{◌>>◌, ◌>>=◌, Exec, plimsoll, secret_error, pure, raise, or_raise, on_integrity}
use bonerepo.Prelude.{ℕ, Option, none, some, List, [], ◌∷◌, if◌then◌else◌}
use bonerepo.Prelude.Texts.{Text}
use bonerepo.Tokens.{AccessClaims}
use bonerepo.Contracts.Errors.{not_found, conflict, resource_in_use, script_repos}
use bonerepo.Contracts.Credentials.{CredentialCreate}
use bonerepo.Store.Rows.{Credential, credential_created, credential_deleted, kind}
use bonerepo.Secrets.{Cipher, encrypt, decrypt}
use bonerepo.Repositories.Credentials as repo
use bonerepo.Services.Audit.{note}

module _ (cipher : Cipher) where
  unfoldable pub create : AccessClaims → CredentialCreate → Exec Credential
  create principal body = do
    sealed ← encrypt cipher body.secret
    row ←
        on_integrity (plimsoll (record { code = conflict; details = none }))
          (repo.insert principal.organization_id principal.user_id body sealed.0 sealed.1)
    note principal credential_created row.id (some (kind body.kind))
    pure row

  unfoldable pub decrypted : Option Credential → Exec (Option (List ℕ))
  decrypted none = pure none
  decrypted (some material) = do
    secret ← decrypt cipher material.ciphertext material.key_ref
    pure (some secret)

  unfoldable pub secret_for : ℕ → Exec (Option (List ℕ))
  secret_for credential_id = do material ← repo.secret_material credential_id; decrypted material

  unfoldable pub secret_named : Text → Exec (Option (List ℕ))
  secret_named name = do material ← repo.by_name name; decrypted material

  unfoldable pub decrypt_each : List Credential → Exec (List (Text × List ℕ))
  decrypt_each [] = pure []
  decrypt_each (row ∷ rows) = do
    secret ← decrypt cipher row.ciphertext row.key_ref
    rest ← decrypt_each rows
    pure ((row.name, secret) ∷ rest)

  -- The values stay bytes.
  unfoldable pub variables : Exec (List (Text × List ℕ))
  variables = do rows ← repo.variable_material; decrypt_each rows

-- `if in_use: raise`
unfoldable pub refuse_in_use : List Text → Exec (Unit {0})
refuse_in_use [] = pure tt
refuse_in_use (name ∷ names) =
    raise
      (plimsoll (record { code = resource_in_use; details = some (script_repos (name ∷ names)) }))

unfoldable pub delete : AccessClaims → ℕ → Exec (Unit {0})
delete principal credential_id = do
  found ← repo.get credential_id
  current ← or_raise (plimsoll (record { code = not_found; details = none })) found
  in_use ← repo.referencing_repos credential_id
  refuse_in_use in_use
  done ← repo.delete credential_id
  note principal credential_deleted credential_id none
