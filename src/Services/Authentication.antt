-- ===== src/Services/Authentication.antt =====
-- services/auth.py, and the login and refresh endpoints of routers/auth.py. Verifying a password is
-- argon2's; an access token is given by its claims.
pub mod Accounts
pub mod Replay
mod Tests
use bonerepo.Store.{
  ◌>>◌, ◌>>=◌, World, Exec, Failure, plimsoll, authentication_failed, refresh_rejected, pure,
  or_raise, unless, bind_session_to_org, session_for_org,
}
use bonerepo.Prelude.{ℕ, Bool, true, false, Option, none, some, ok, err, Result, if◌then◌else◌}
use bonerepo.Prelude.Texts.{Text}
use bonerepo.Contracts.Errors.{unauthenticated}
use bonerepo.Tokens.{AccessClaims}
use bonerepo.Store.Rows.{User, RowStatus, active}
use bonerepo.Repositories.RefreshTokens as repo
use bonerepo.Services.Refresh.{issue_family, organization_for, rotate}

unfoldable pub is_active : RowStatus → Bool
is_active active = true
is_active _ = false

-- The hash to verify against: none where there is no such account, it has no password, or it is not
-- active.
unfoldable pub usable_hash : Option User → Option (User × Text)
unfolding is_active
usable_hash none = none
usable_hash (some u) = elim u.password_hash [
  | none ↦ none
  | some h ↦ if is_active u.status then some (u, h) else none
]

-- `except RefreshRejected as exc: raise PlimsollError(UNAUTHENTICATED) from exc`
unfoldable pub unauthorised : Failure
unauthorised = plimsoll (record { code = unauthenticated; details = none })

recast : {A : Type 0} → Result Failure A × World → Result Failure A × World
unfolding unauthorised
recast (err refresh_rejected, w) = (err unauthorised, w)
recast r = r

unfoldable pub on_refresh_rejected : {A : Type 0} → Exec A → Exec A
unfolding recast
on_refresh_rejected m w = recast (m w)

module _ (sha256 : ℕ → ℕ) (refresh_ttl : ℕ) (verify_password : Text → Text → Bool) where
  unfoldable pub authenticate : Text → Text → Exec (AccessClaims × ℕ)
  authenticate email password = do
    row ← repo.lookup_for_login email
    (user, stored) ← or_raise authentication_failed (usable_hash row)
    unless (verify_password stored password) authentication_failed
    bind_session_to_org user.organization_id
    refresh ← issue_family sha256 refresh_ttl user.id user.organization_id
    pure (
      record { user_id = user.id; organization_id = user.organization_id; role = user.org_role },
      refresh,
    )

-- What the endpoint does inside the transaction of the token's organisation.
module _ (sha256 : ℕ → ℕ) (refresh_ttl : ℕ) where
  unfoldable pub rotation : ℕ → Exec (ℕ × ℕ × ℕ × Option User)
  rotation presented = do
    rotated ← on_refresh_rejected (rotate sha256 refresh_ttl presented)
    profile ← repo.get_profile rotated.1
    pure (rotated.0, rotated.1, rotated.2, profile)

  -- The new cookie and the claims of the access token, from what the two transactions returned.
  unfoldable pub answer :
      Result Failure (ℕ × ℕ × ℕ × Option User) × World → Result Failure (AccessClaims × ℕ) × World
  unfolding unauthorised
  answer (err e, w) = (err e, w)
  answer (ok (new_token, user_id, org, none), w) = (err unauthorised, w)
  answer (ok (new_token, user_id, org, some profile), w) = (
    ok (record { user_id = user_id; organization_id = org; role = profile.org_role }, new_token),
    w,
  )

  unfoldable pub in_scope :
      ℕ → Result Failure (Option ℕ) × World → Result Failure (AccessClaims × ℕ) × World
  unfolding unauthorised
  in_scope presented (err e, w) = (err e, w)
  in_scope presented (ok none, w) = (err unauthorised, w)
  in_scope presented (ok (some org), w) = answer (session_for_org (some org) (rotation presented) w)

  -- POST /api/v1/auth/refresh, given the cookie
  unfoldable pub refresh_tokens : Option ℕ → Exec (AccessClaims × ℕ)
  unfolding unauthorised
  refresh_tokens none w = (err unauthorised, w)
  refresh_tokens (some presented) w =
      in_scope presented (session_for_org none (organization_for sha256 refresh_ttl presented) w)
