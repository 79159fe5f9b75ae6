-- ===== src/Repositories/RefreshTokens.antt =====
-- repositories/refresh_tokens.py and users.py, with the two SECURITY DEFINER lookups of migrations
-- 0003 and 0005, which do not go by the policy.
use bonerepo.Store.{family_tenant, history_tenant, user_tenant, World, Exec, policy, integrity}
use bonerepo.Prelude.{ℕ, Bool, false, Option, some, none, ok, err, List, ◌==◌, if◌then◌else◌, first}
use bonerepo.Prelude.Texts.{Text, text_eq, lower}
use bonerepo.Store.Rows.{RefreshTokenFamily, RefreshTokenHistory, User}
use bonerepo.Store.Table.{visible, by_id, select_first, update_where, insert_row, taken}

unfoldable pub put_families : List RefreshTokenFamily → World → World
put_families rows w = record w { db = record w.db { families = rows } }

unfoldable pub put_history : List RefreshTokenHistory → World → World
put_history rows w = record w { db = record w.db { history = rows } }

unfoldable pub insert_family : ℕ → ℕ → ℕ → ℕ → ℕ → Exec (Unit {0})
unfolding put_families
insert_family family_id org_id user_id token_hash expires_at w =
    let r : RefreshTokenFamily = record {
      id = family_id;
      organization_id = org_id;
      user_id = user_id;
      current_hash = token_hash;
      revoked_at = none;
      expires_at = expires_at;
    } in
    if visible w.org r
    then (ok tt, put_families (insert_row r w.db.families) w)
    else (err policy, w)

unfoldable pub live_family : World → ℕ → Option RefreshTokenFamily
live_family w token_hash = select_first w.org (λ r. r.current_hash == token_hash) w.db.families

unfoldable pub find_by_hash : ℕ → Exec (Option RefreshTokenFamily)
find_by_hash token_hash w = (ok (live_family w token_hash), w)

unfoldable pub set_hash : ℕ → RefreshTokenFamily → RefreshTokenFamily
set_hash token_hash r = record r { current_hash = token_hash }

unfoldable pub replace_hash : ℕ → ℕ → Exec (Unit {0})
unfolding put_families set_hash
replace_hash family_id token_hash w = (
  ok tt,
  put_families (update_where w.org (λ r. r.id == family_id) (set_hash token_hash) w.db.families) w,
)

-- (SELECT family_id FROM refresh_token_history WHERE token_hash = :hash)
unfoldable pub family_seen : World → ℕ → Option ℕ
family_seen w token_hash =
    elim (select_first w.org (λ h. h.token_hash == token_hash) w.db.history) [
      | none ↦ none
      | some h ↦ some h.family_id
    ]

unfoldable pub revoke : ℕ → RefreshTokenFamily → RefreshTokenFamily
revoke now r = record r { revoked_at = some now }

-- `id = NULL` is no match
unfoldable pub is_family : Option ℕ → RefreshTokenFamily → Bool
is_family none r = false
is_family (some id) r = r.id == id

unfoldable pub revoke_family_containing : ℕ → Exec (Unit {0})
unfolding put_families is_family revoke
revoke_family_containing token_hash w = (
  ok tt,
  put_families
      (update_where w.org (is_family (family_seen w token_hash)) (revoke w.now) w.db.families) w,
)

unfoldable pub org_of_family : Option RefreshTokenFamily → Option RefreshTokenHistory → Option ℕ
org_of_family (some r) h = some r.organization_id
org_of_family none (some h) = some h.organization_id
org_of_family none none = none

-- auth_org_for_refresh
unfoldable pub organization_for_token : ℕ → Exec (Option ℕ)
unfolding org_of_family first
organization_for_token token_hash w = (
  ok (
      org_of_family (first (λ r. r.current_hash == token_hash) w.db.families)
        (first (λ h. h.token_hash == token_hash) w.db.history)),
  w,
)

-- token_hash is the primary key
unfoldable pub record_history : ℕ → ℕ → ℕ → Exec (Unit {0})
unfolding put_history
record_history family_id org_id token_hash w =
    let r : RefreshTokenHistory = record {
      token_hash = token_hash;
      family_id = family_id;
      organization_id = org_id;
    } in
    if visible w.org r
    then if taken (λ h. h.token_hash == token_hash) w.db.history
      then (err integrity, w)
      else (ok tt, put_history (insert_row r w.db.history) w)
    else (err policy, w)

-- auth_lookup_user
unfoldable pub lookup_for_login : Text → Exec (Option User)
unfolding first
lookup_for_login email w = (ok (first (λ u. text_eq u.email (lower email)) w.db.users), w)

unfoldable pub get_profile : ℕ → Exec (Option User)
get_profile user_id w = (ok (by_id w.org user_id w.db.users), w)
