-- ===== src/Services/Credentials/Sealed.antt =====
-- A secret that was stored is the secret that is read.
use mathlib.Core.Path.{subst}
use bonerepo.Store.{
  audit_log_tenant, credential_tenant, ◌>>=◌, World, Failure, integrity, policy, draw,
}
use bonerepo.Store.Keeps.{Keeps, keeps_rules}
use bonerepo.Store.Rows.{Credential, ScriptRepo, AuditLog, AuditAction, AuditMetadata}
use bonerepo.Store.Table.{visible, insert_row, taken}
use bonerepo.Prelude.{
  ℕ, suc, ◌≡◌, refl, sym, ap, ◌∙◌, Bool, true, false, Option, some, List, [], ◌∷◌, ◌++◌, inl, inr,
  if◌then◌else◌, length, take, Bool-cases, Result, ok, err,
}
use bonerepo.Prelude.Texts.{Text, text_eq}
use bonerepo.Tokens.{AccessClaims}
use bonerepo.Contracts.Credentials.{CredentialCreate}
use bonerepo.Secrets.{Cipher, drop, opened, local_key_ref}
use bonerepo.Repositories.Audit
use bonerepo.Repositories.Credentials as repo
use bonerepo.Services.Audit.{note}

-- The two tables and the organisation stay as they are.
abbrev pub Kept : List Credential → List ScriptRepo → Option ℕ → World → Type 0
Kept rows repos org w = (w.db.credentials ≡ rows) × (w.db.script_repos ≡ repos) × (w.org ≡ org)

module _ (rows : List Credential) (repos : List ScriptRepo) (org : Option ℕ) where
  store_audit : (r : AuditLog) → Keeps (Kept rows repos org) (Audit.store r)
  unfolding Audit.store
  store_audit r = record {
    at = λ w h. elim (Bool-cases (visible w.org r)) [ inl e ↦ rw e h | inr e ↦ rw e h ];
  }

  drawing : Keeps (Kept rows repos org) draw
  unfolding draw
  drawing = record { at = λ w h. h }

  pub noted :
      (p : AccessClaims) (a : AuditAction) (e : ℕ) (m : Option AuditMetadata)
      → Keeps (Kept rows repos org) (note p a e m)
  unfolding note Audit.insert
  noted p a e m = search (keeps_rules, store_audit, drawing)

take-append : (a b : List ℕ) → take (length a) (a ++ b) ≡ a
take-append [] b = refl
take-append (x ∷ a) b = ap (λ l. x ∷ l) (take-append a b)

drop-append : (a b : List ℕ) → drop (length a) (a ++ b) ≡ b
unfolding drop
drop-append [] b = refl
drop-append (x ∷ a) b = drop-append a b

module _ (cipher : Cipher) where
  -- What encrypt makes, decrypt opens.
  pub opened-sealed :
      (n : ℕ) (plaintext : List ℕ)
      → opened cipher (cipher.nonce_of n ++ cipher.seal (cipher.nonce_of n) plaintext) local_key_ref
        ≡ some plaintext
  unfolding opened text_eq
  opened-sealed n plaintext =
      let nonce = cipher.nonce_of n in
      let body = cipher.seal nonce plaintext in
      ap (λ k. cipher.open_sealed (take k (nonce ++ body)) (drop k (nonce ++ body)))
        (sym (cipher.nonce_bytes n))
      ∙ ap (λ a. cipher.open_sealed a (drop (length nonce) (nonce ++ body)))
          (take-append nonce body)
      ∙ ap (cipher.open_sealed nonce) (drop-append nonce body)
      ∙ cipher.open_sealed-seal nonce plaintext

-- What an INSERT that returned has done.
pub record Stored (r : Credential) (w : World) (row : Credential) (w' : World) : Type 0 where
  pub same : row ≡ r
  pub kept : Kept (w.db.credentials ++ r ∷ []) w.db.script_repos w.org w'
  pub shown : visible w.org r ≡ true
  pub fresh : taken (repo.same_name r) w.db.credentials ≡ false

pub ok_same : {A : Type 0} {a b : A} → ◌≡◌ {A = Result Failure A} (ok a) (ok b) → a ≡ b
ok_same h = cc

Stored-cases :
    (r : Credential) (w : World) (row : Credential) (w' : World) (seen again : Bool)
    → visible w.org r ≡ seen
    → taken (repo.same_name r) w.db.credentials ≡ again
    → ◌≡◌ {A = Result Failure Credential × World}
        (if seen
          then if again
            then (err integrity, w)
            else (ok r, repo.put (insert_row r w.db.credentials) w)
          else (err policy, w))
        (ok row, w')
    → Stored r w row w'
unfolding repo.put insert_row
Stored-cases r w row w' false again e f h = cc
Stored-cases r w row w' true true e f h = cc
Stored-cases r w row w' true false e f h = record {
  same = sym (ok_same (ap (λ (x : Result Failure Credential × World). x.0) h));
  kept =
      subst (Kept (w.db.credentials ++ r ∷ []) w.db.script_repos w.org)
        (ap (λ (x : Result Failure Credential × World). x.1) h) (refl, refl, refl);
  shown = e;
  fresh = f;
}

store-Stored :
    (r : Credential) (w : World) (row : Credential) (w' : World)
    → repo.store r w ≡ (ok row, w')
    → Stored r w row w'
unfolding repo.store
store-Stored r w row w' h =
    Stored-cases r w row w' (visible w.org r) (taken (repo.same_name r) w.db.credentials) refl refl
      h

-- The insert of a credential: the row, and the same table behind it but for that row.
pub insert-Stored :
    (org user : ℕ) (body : CredentialCreate) (ciphertext : List ℕ) (key_ref : Text) (w : World)
    (row : Credential) (w' : World)
    → repo.insert org user body ciphertext key_ref w ≡ (ok row, w')
    → Stored
        (repo.credential_row org user body ciphertext key_ref w.drawn w.now)
        (record w { drawn = suc w.drawn })
        row
        w'
unfolding repo.insert ◌>>=◌ draw
insert-Stored org user body ciphertext key_ref w row w' h = store-Stored _ _ row w' h
