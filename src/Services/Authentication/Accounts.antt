-- ===== src/Services/Authentication/Accounts.antt =====
-- Whom a login lets in, and what it leaves in refresh_token_families.
use bonerepo.Store.{
  family_tenant, history_tenant, World, ◌>>=◌, pure, draw, unless, bind_session_to_org,
  authentication_failed,
}
use bonerepo.Store.Results.{bind-Ran, or_raise-ok}
use bonerepo.Prelude.{
  ℕ, suc, ◌+◌, ◌≡◌, refl, Bool, true, false, Option, none, some, [], ◌∷◌, ◌++◌, Among, first-Among,
  ok, arith,
}
use bonerepo.Prelude.Texts.{Text, text_eq, lower}
use bonerepo.Tokens.{AccessClaims}
use bonerepo.Store.Rows.{User, RefreshTokenFamily, RowStatus, active}
use bonerepo.Store.Table.{insert_row}
use bonerepo.Repositories.RefreshTokens as repo
use bonerepo.Services.Refresh.{issue_family}
use bonerepo.Services.Authentication.{is_active, usable_hash, authenticate}

is_active-active : (s : RowStatus) → is_active s ≡ true → s ≡ active
unfolding is_active
is_active-active active h = refl
is_active-active _ h = cc

module _ (verify_password : Text → Text → Bool) (email password : Text) (w : World) where
  -- An active account of the address whose password it is.
  pub record IsAccount (u : User) : Type 0 where
    pub stored : Text
    pub listed : Among u w.db.users
    pub addressed : text_eq u.email (lower email) ≡ true
    pub is_live : u.status ≡ active
    pub has_hash : u.password_hash ≡ some stored
    pub verified : verify_password stored password ≡ true

usable_hash-some :
    (found : Option User) (u : User) (h : Text)
    → usable_hash found ≡ some (u, h)
    → (found ≡ some u) × (u.password_hash ≡ some h) × (is_active u.status ≡ true)
unfolding usable_hash
usable_hash-some found u h e = ground (arith, e)

unless-true :
    (b : Bool) (w w' : World)
    → unless b authentication_failed w ≡ (ok tt, w')
    → (b ≡ true) × (w ≡ w')
unfolding unless
unless-true true w w' h = (refl, cc)
unless-true false w w' h = cc

-- The one row that a login adds.
unfoldable pub family_of : AccessClaims → ℕ → ℕ → ℕ → RefreshTokenFamily
family_of claims fresh hash expires_at = record {
  id = fresh;
  organization_id = claims.organization_id;
  user_id = claims.user_id;
  current_hash = hash;
  revoked_at = none;
  expires_at = expires_at;
}

module _ (sha256 : ℕ → ℕ) (refresh_ttl : ℕ) where
  issued :
      (claims : AccessClaims) (w : World) (token : ℕ) (w' : World)
      → issue_family sha256 refresh_ttl claims.user_id claims.organization_id w ≡ (ok token, w')
      → (fresh : ℕ) × (w'.db.families
          ≡ w.db.families ++ family_of claims fresh (sha256 token) (w.now + refresh_ttl) ∷ [])
  unfolding issue_family repo.insert_family repo.record_history draw pure ◌>>=◌ insert_row family_of
  issued claims w token w' h = (suc w.drawn, ground (arith, h))

-- A login that succeeds is one to an active account of the address, whose stored hash verifies the
-- password that was sent. Its claims are the account's user, organisation and role, and it adds one
-- family of refresh tokens, that user's, with the hash of the token that it returns.
pub authenticate-IsAccount :
    (sha256 : ℕ → ℕ) (refresh_ttl : ℕ) (verify_password : Text → Text → Bool)
    (email password : Text) (w : World) (claims : AccessClaims) (token : ℕ) (w' : World)
    → authenticate sha256 refresh_ttl verify_password email password w ≡ (ok (claims, token), w')
    → (u : User) × IsAccount verify_password email password w u
      × (claims ≡ record { user_id = u.id; organization_id = u.organization_id; role = u.org_role })
      × (fresh : ℕ) × (w'.db.families
          ≡ w.db.families ++ family_of claims fresh (sha256 token) (w.now + refresh_ttl) ∷ [])
unfolding authenticate repo.lookup_for_login bind_session_to_org pure
authenticate-IsAccount sha256 refresh_ttl verify_password email password w claims token w' h =
    let r1 = bind-Ran _ _ w (claims, token) w' h in
    let r2 = bind-Ran _ _ r1.world (claims, token) w' r1.continued in
    let got = or_raise-ok _ _ r1.world r2.value r2.world r2.started in
    let usable = usable_hash-some r1.value r2.value.0 r2.value.1 got.0 in
    let found =
      first-Among (λ (u : User). text_eq u.email (lower email)) w.db.users r2.value.0
        (ground (arith, r1.started, usable.0)) in
    let r3 = bind-Ran _ _ r2.world (claims, token) w' r2.continued in
    let passed = unless-true _ r2.world r3.world r3.started in
    let r4 = bind-Ran _ _ r3.world (claims, token) w' r3.continued in
    let r5 = bind-Ran _ _ r4.world (claims, token) w' r4.continued in
    let u = r2.value.0 in
    let account : AccessClaims = record {
      user_id = u.id;
      organization_id = u.organization_id;
      role = u.org_role;
    } in
    let is : claims ≡ account = ground (arith, r5.continued) in
    let row = issued sha256 refresh_ttl account r4.world r5.value r5.world r5.started in
    (
      u,
      record {
        stored = r2.value.1;
        listed = found.0;
        addressed = found.1;
        is_live = is_active-active _ usable.2;
        has_hash = usable.1;
        verified = passed.0;
      },
      is,
      row.0,
      ground (arith, r1.started, got.1, passed.1, r4.started, row.1, r5.continued, is),
    )
