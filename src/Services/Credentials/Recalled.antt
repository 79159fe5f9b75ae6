-- ===== src/Services/Credentials/Recalled.antt =====
-- A credential that was created is found by its identifier and by its name, and it opens.
use mathlib.Core.Path.{subst}
use bonerepo.Store.{
  credential_tenant, ◌>>=◌, World, Failure, plimsoll, draw, on_integrity, pure, or_raise,
}
use bonerepo.Store.Results.{bind-Ran, kept_after, on_integrity-ok}
use bonerepo.Store.Rows.{Credential, credential_created, kind}
use bonerepo.Store.Table.{org_matches, visible, by_id, select_first, taken}
use bonerepo.Prelude.{
  ℕ, suc, ◌≡◌, ◌<◌, refl, sym, ap, ◌∙◌, Bool, true, false, ◌&&◌, Option, none, some, List, [], ◌∷◌,
  ◌++◌, Among, here, there, inl, inr, arith, ◌==◌, first, Bool-cases, Result, ok,
}
use bonerepo.Prelude.Texts.{text_eq, text_eq_refl}
use bonerepo.Tokens.{AccessClaims}
use bonerepo.Contracts.Errors.{conflict}
use bonerepo.Contracts.Credentials.{CredentialCreate}
use bonerepo.Secrets.{Cipher, encrypt, opened, decrypt, local_key_ref}
use bonerepo.Repositories.Credentials as repo
use bonerepo.Services.Audit.{note}
use bonerepo.Services.Credentials.Sealed.{
  Kept, noted, opened-sealed, Stored, insert-Stored, ok_same,
}
use bonerepo.Services.Credentials.{create, decrypted, secret_for, secret_named}

module _ {A : Type 0} where
  first-none :
      (p : A → Bool) (xs : List A) → ((x : A) → Among x xs → p x ≡ false) → first p xs ≡ none
  unfolding first
  first-none p [] h = refl
  first-none p (x ∷ xs) h = rw (h x (here refl)) (first-none p xs (λ y m. h y (there m)))

  first-weaker :
      (p q : A → Bool) (xs : List A)
      → ((x : A) → p x ≡ true → q x ≡ true)
      → first q xs ≡ none
      → first p xs ≡ none
  unfolding first
  first-weaker p q [] h e = refl
  first-weaker p q (x ∷ xs) h e = elim (Bool-cases (p x)) [
    | inl t ↦ ground (arith, h x t)
    | inr f ↦ elim (Bool-cases (q x)) [
      | inl t ↦ ground arith
      | inr g ↦ rw f (first-weaker p q xs h (ground arith))
    ]
  ]

  first-last :
      (p : A → Bool) (xs : List A) (a : A)
      → first p xs ≡ none
      → p a ≡ true
      → first p (xs ++ a ∷ []) ≡ some a
  unfolding first
  first-last p [] a e h = rw h refl
  first-last p (x ∷ xs) a e h = elim (Bool-cases (p x)) [
    | inl t ↦ ground arith
    | inr f ↦ rw f (first-last p xs a (ground arith) h)
  ]

first-taken :
    {R : Type 0} (o : Option R) → (elim o [ none ↦ false | some _ ↦ true ]) ≡ false → o ≡ none
first-taken none e = refl
first-taken (some r) e = cc

taken-first :
    (p : Credential → Bool) (rows : List Credential) → taken p rows ≡ false → first p rows ≡ none
unfolding taken
taken-first p rows h = first-taken (first p rows) h

-- In one organisation, a row of the same name takes the name.
same_name-visible :
    (org : Option ℕ) (r s : Credential)
    → visible org r ≡ true
    → (visible org s && text_eq s.name r.name) ≡ true
    → repo.same_name r s ≡ true
unfolding visible org_matches repo.same_name
same_name-visible none r s h g = cc
same_name-visible (some o) r s h g = ground arith

module _ (cipher : Cipher) (r : Credential) (secret : List ℕ)
    (opens : opened cipher r.ciphertext r.key_ref ≡ some secret) where
  decrypted-opens : (w : World) → decrypted cipher (some r) w ≡ (ok (some secret), w)
  unfolding decrypted decrypt ◌>>=◌ or_raise pure
  decrypted-opens w = rw opens refl

-- What `create` did, when it returned.
record Created (cipher : Cipher) (principal : AccessClaims) (body : CredentialCreate) (w : World)
    (row : Credential) (w' : World) : Type 0 where
  numbered : row.id ≡ suc w.drawn
  named : row.name ≡ body.name
  opens : opened cipher row.ciphertext row.key_ref ≡ some body.secret
  listed : w'.db.credentials ≡ w.db.credentials ++ row ∷ []
  scoped : w'.org ≡ w.org
  shown : visible w.org row ≡ true
  fresh : taken (repo.same_name row) w.db.credentials ≡ false

Stored-Created :
    (cipher : Cipher) (principal : AccessClaims) (body : CredentialCreate) (w : World)
    (row : Credential) (w2 w' : World)
    → Stored
        (repo.credential_row principal.organization_id principal.user_id body
          (cipher.nonce_of w.drawn ++ cipher.seal (cipher.nonce_of w.drawn) body.secret)
          local_key_ref
          (suc w.drawn)
          w.now)
        (record w { drawn = suc (suc w.drawn) })
        row
        w2
    → Kept w2.db.credentials w2.db.script_repos w2.org w'
    → Created cipher principal body w row w'
unfolding repo.credential_row
Stored-Created cipher principal body w row w2 w' s k = record {
  numbered = ap (λ (r : Credential). r.id) s.same;
  named = ap (λ (r : Credential). r.name) s.same;
  opens =
      ap (λ (r : Credential). opened cipher r.ciphertext r.key_ref) s.same
      ∙ opened-sealed cipher w.drawn body.secret;
  listed = k.0 ∙ s.kept.0 ∙ ap (λ r. w.db.credentials ++ r ∷ []) (sym s.same);
  scoped = k.2 ∙ s.kept.2;
  shown = ap (visible w.org) s.same ∙ s.shown;
  fresh = ap (λ r. taken (repo.same_name r) w.db.credentials) s.same ∙ s.fresh;
}

create-Created :
    (cipher : Cipher) (principal : AccessClaims) (body : CredentialCreate) (w : World)
    (row : Credential) (w' : World)
    → create cipher principal body w ≡ (ok row, w')
    → Created cipher principal body w row w'
unfolding create encrypt draw ◌>>=◌ pure
create-Created cipher principal body w row w' h =
    let sealed = cipher.nonce_of w.drawn ++ cipher.seal (cipher.nonce_of w.drawn) body.secret in
    let w1 = record w { drawn = suc w.drawn } in
    let inserting =
      on_integrity (plimsoll (record { code = conflict; details = none }))
        (repo.insert principal.organization_id principal.user_id body sealed local_key_ref) in
    let r1 =
      bind-Ran inserting
        (λ r. note principal credential_created r.id (some (kind body.kind)) >>= λ _. pure r) w1 row
        w' h in
    let r2 =
      bind-Ran (note principal credential_created r1.value.id (some (kind body.kind)))
        (λ _. pure r1.value) r1.world row w' r1.continued in
    let stored =
      insert-Stored principal.organization_id principal.user_id body sealed local_key_ref w1
        r1.value r1.world (on_integrity-ok _ _ w1 r1.value r1.world r1.started) in
    let kept =
      kept_after
        (noted r1.world.db.credentials r1.world.db.script_repos r1.world.org principal
          credential_created r1.value.id (some (kind body.kind)))
        r2.started (refl, refl, refl) in
    let same : r1.value ≡ row =
      ok_same (ap (λ (x : Result Failure Credential × World). x.0) r2.continued) in
    let last : r2.world ≡ w' = ap (λ (x : Result Failure Credential × World). x.1) r2.continued in
    subst (λ r. Created cipher principal body w r w') same
      (Stored-Created cipher principal body w r1.value r1.world w' stored
        (subst (Kept r1.world.db.credentials r1.world.db.script_repos r1.world.org) last kept))

-- Where no identifier of the table is drawn again: once a credential is created, reading it by its
-- identifier and by its name gives the secret that was sent, and changes nothing.
pub create-secret :
    (cipher : Cipher) (principal : AccessClaims) (body : CredentialCreate) (w : World)
    (row : Credential) (w' : World)
    → ((r : Credential) → Among r w.db.credentials → r.id < w.drawn)
    → create cipher principal body w ≡ (ok row, w')
    → (secret_for cipher row.id w' ≡ (ok (some body.secret), w'))
      × (secret_named cipher body.name w' ≡ (ok (some body.secret), w'))
unfolding secret_for secret_named ◌>>=◌ repo.secret_material repo.by_name by_id select_first
create-secret cipher principal body w row w' drawn h =
    let c = create-Created cipher principal body w row w' h in
    let by_number =
      first-last (λ (s : Credential). visible w.org s && s.id == row.id) w.db.credentials row
        (first-none _ w.db.credentials (λ s m. let old = drawn s m in ground (arith, c.numbered)))
        (ground (arith, c.shown)) in
    let by_title =
      first-last (λ (s : Credential). visible w.org s && text_eq s.name row.name) w.db.credentials
        row
        (first-weaker _ (repo.same_name row) w.db.credentials
          (λ s g. same_name-visible w.org row s c.shown g)
          (taken-first (repo.same_name row) w.db.credentials c.fresh))
        (ground (arith, c.shown, text_eq_refl row.name)) in
    let found : first (λ (s : Credential). visible w'.org s && s.id == row.id) w'.db.credentials
        ≡ some row =
      (λ i. first (λ (s : Credential). visible (c.scoped i) s && s.id == row.id) (c.listed i))
      ∙ by_number in
    let called : first (λ (s : Credential). visible w'.org s && text_eq s.name body.name)
          w'.db.credentials
        ≡ some row =
      (λ i.
        first (λ (s : Credential). visible (c.scoped i) s && text_eq s.name (sym c.named i))
          (c.listed i))
      ∙ by_title in
    (
      ap (λ o. decrypted cipher o w') found ∙ decrypted-opens cipher row body.secret c.opens w',
      ap (λ o. decrypted cipher o w') called ∙ decrypted-opens cipher row body.secret c.opens w',
    )
