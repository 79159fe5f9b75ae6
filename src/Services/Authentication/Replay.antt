-- ===== src/Services/Authentication/Replay.antt =====
-- A refresh token that has been consumed is presented again.
use bonerepo.Store.{scope, begin, family_tenant, World, raise, ◌>>=◌, settle, session_for_org}
use bonerepo.Prelude.{
  ℕ, ◌≡◌, refl, Option, none, some, Bool, ◌&&◌, ◌==◌, List, [], ◌∷◌, first, ok, err, arith,
}
use bonerepo.Store.Rows.{RefreshTokenFamily}
use bonerepo.Store.Table.{visible, select_first}
use bonerepo.Repositories.RefreshTokens as repo
use bonerepo.Services.Refresh.{rotate, rotate_found, organization_for}
use bonerepo.Services.Authentication.{
  unauthorised, on_refresh_rejected, rotation, answer, in_scope, refresh_tokens,
}

first-none :
    {A : Type 0} (p q : A → Bool) (xs : List A)
    → first p xs ≡ none
    → first (λ x. q x && p x) xs ≡ none
unfolding first
first-none p q [] h = refl
first-none p q (x ∷ xs) h = ground (arith, first-none p q xs)

module _ (sha256 : ℕ → ℕ) (refresh_ttl : ℕ) where
  -- Inside the transaction the family is revoked, and the exception passes on.
  rotation-replay :
      (presented : ℕ) (w : World)
      → repo.live_family w (sha256 presented) ≡ none
      → (rotation sha256 refresh_ttl presented w).0 ≡ err unauthorised
  unfolding rotation rotate rotate_found on_refresh_rejected ◌>>=◌ raise repo.find_by_hash
      repo.revoke_family_containing
  rotation-replay presented w h = rw h refl

  in_scope-replay :
      (presented o : ℕ) (w : World)
      → first (λ (r : RefreshTokenFamily). r.current_hash == sha256 presented) w.db.families ≡ none
      → ((in_scope sha256 refresh_ttl presented (ok (some o), w)).0 ≡ err unauthorised)
        × ((in_scope sha256 refresh_ttl presented (ok (some o), w)).1.db ≡ w.db)
  unfolding in_scope session_for_org settle answer repo.live_family select_first
  in_scope-replay presented o w h =
      let raised =
        rotation-replay presented (scope (some o) (begin w))
          (first-none _ (λ r. visible (some o) r) w.db.families h) in
      ground (arith, raised)

  resolved-replay :
      (presented : ℕ) (found : Option ℕ) (w : World)
      → first (λ (r : RefreshTokenFamily). r.current_hash == sha256 presented) w.db.families ≡ none
      → ((in_scope sha256 refresh_ttl presented (ok found, w)).0 ≡ err unauthorised)
        × ((in_scope sha256 refresh_ttl presented (ok found, w)).1.db ≡ w.db)
  unfolding in_scope
  resolved-replay presented none w h = (refl, refl)
  resolved-replay presented (some o) w h = in_scope-replay presented o w h

  -- A token that is the live one of no family, a consumed one among them, is answered 401 by
  -- POST /auth/refresh, and no table is changed: the revocation of the family that the service
  -- makes is rolled back with the transaction that the exception leaves.
  pub refresh_tokens-replay :
      (presented : ℕ) (w : World)
      → first (λ (r : RefreshTokenFamily). r.current_hash == sha256 presented) w.db.families ≡ none
      → ((refresh_tokens sha256 refresh_ttl (some presented) w).0 ≡ err unauthorised)
        × ((refresh_tokens sha256 refresh_ttl (some presented) w).1.db ≡ w.db)
  unfolding refresh_tokens session_for_org settle organization_for repo.organization_for_token
  refresh_tokens-replay presented w h = resolved-replay presented _ _ h
