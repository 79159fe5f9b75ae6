-- ===== src/Services/Refresh.antt =====
-- services/refresh.py. A raw token is the value that token_urlsafe drew; `sha256` is hashlib's.
use bonerepo.Store.{◌>>=◌, ◌>>◌, Exec, refresh_rejected, pure, raise, draw, current_time}
use bonerepo.Prelude.{ℕ, ◌+◌, Option, none, some, leb, if◌then◌else◌}
use bonerepo.Store.Rows.{RefreshTokenFamily}
use bonerepo.Repositories.RefreshTokens as repo

-- Settings.refresh_token_ttl_seconds
module _ (sha256 : ℕ → ℕ) (refresh_ttl : ℕ) where
  unfoldable pub organization_for : ℕ → Exec (Option ℕ)
  organization_for raw = repo.organization_for_token (sha256 raw)

  unfoldable pub issue_family : ℕ → ℕ → Exec ℕ
  issue_family user_id org_id = do
    raw ← draw
    family_id ← draw
    now ← current_time
    repo.insert_family family_id org_id user_id (sha256 raw) (now + refresh_ttl)
    repo.record_history family_id org_id (sha256 raw)
    pure raw

  -- The checks on the family whose live token was presented, and the rotation.
  unfoldable pub rotate_live : RefreshTokenFamily → ℕ → Exec (ℕ × ℕ × ℕ)
  rotate_live row now = elim row.revoked_at [
    | some at ↦ raise refresh_rejected
    | none ↦ if leb row.expires_at now then raise refresh_rejected else do
      new_raw ← draw
      repo.replace_hash row.id (sha256 new_raw)
      repo.record_history row.id row.organization_id (sha256 new_raw)
      pure (new_raw, row.user_id, row.organization_id)
  ]

  unfoldable pub rotate_found : ℕ → Option RefreshTokenFamily → Exec (ℕ × ℕ × ℕ)
  rotate_found token_hash none = do repo.revoke_family_containing token_hash; raise refresh_rejected
  rotate_found token_hash (some row) = do now ← current_time; rotate_live row now

  unfoldable pub rotate : ℕ → Exec (ℕ × ℕ × ℕ)
  rotate raw_token = do
    row ← repo.find_by_hash (sha256 raw_token)
    rotate_found (sha256 raw_token) row
