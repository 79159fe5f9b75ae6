-- ===== src/Api/Reads/Policy.antt =====
-- The target policy that is in force after a PUT.
use bonerepo.Store.{target_policy_tenant, World, draw, gets, ◌>>=◌, pure, raise}
use bonerepo.Prelude.{
  ℕ, suc, ◌<◌, ◌+◌, ◌≡◌, refl, ◌∙◌, sym, subst, ap, ◌⊎◌, inl, inr, Option, none, some, Option-cases,
  ok, err, Result, true, Bool-cases, List, [], ◌∷◌, ◌++◌, keep, arith,
}
use bonerepo.Prelude.Texts.{Text}
use bonerepo.Errors.{PlimsollError}
use bonerepo.Tokens.{AccessClaims}
use bonerepo.Store.Rows.{AuditLog, AuditAction, AuditMetadata, TargetPolicy}
use bonerepo.Store.Table.{visible, select, insert_row, taken}
use bonerepo.Store.Keeps.{Keeps, keeps_rules}
use bonerepo.Store.Results.{bind-Ran, kept_after}
use bonerepo.Repositories.Audit
use bonerepo.Repositories.TargetPolicies as repo
use bonerepo.Services.Audit.{note}
use bonerepo.Services.TargetPolicies as policies

newest-append :
    (rows : List TargetPolicy) (r : TargetPolicy)
    → repo.version_of (repo.newest rows) < r.version
    → repo.newest (rows ++ r ∷ []) ≡ some r
unfolding repo.newest repo.newer repo.version_of
newest-append [] r h = refl
newest-append (x ∷ rows) r h = step (Option-cases (repo.newest rows)) (newest-append rows r)
  where
    step :
        (repo.newest rows ≡ none) ⊎ ((s : TargetPolicy) × (repo.newest rows ≡ some s))
        → (repo.version_of (repo.newest rows) < r.version → repo.newest (rows ++ r ∷ []) ≡ some r)
        → repo.newest ((x ∷ rows) ++ r ∷ []) ≡ some r
    step (inl e) rest = ground (arith, h, e, rest)
    step (inr (s, e)) rest = ground (arith, h, e, rest)

select-insert_row :
    (org : Option ℕ) (rows : List TargetPolicy) (r : TargetPolicy)
    → visible org r ≡ true
    → select org (λ s. true) (insert_row r rows) ≡ select org (λ s. true) rows ++ r ∷ []
unfolding select keep insert_row
select-insert_row org [] r h = ground (arith, h)
select-insert_row org (x ∷ rows) r h = ground (arith, select-insert_row org rows r h)

-- The policies of the session are these, and the newest is this one.
pub record InForce (o : Option ℕ) (row : TargetPolicy) (w : World) : Type 0 where
  pub setting : w.org ≡ o
  pub newest : repo.current_row w ≡ some row

store-InForce :
    (r : TargetPolicy) (w : World) (row : TargetPolicy) (w' : World)
    → repo.version_of (repo.current_row w) < r.version
    → repo.store r w ≡ (ok row, w')
    → (row ≡ r) × InForce w.org r w'
unfolding repo.store repo.put repo.current_row
store-InForce r w row w' less h = elim (Bool-cases (visible w.org r)) [
  | inl seen ↦ elim (Bool-cases (taken (repo.same_version r) w.db.target_policies)) [
    | inl e ↦ cc
    | inr e ↦
        let value : row ≡ r = ground (arith, h, seen, e) in
        let same : repo.put (insert_row r w.db.target_policies) w ≡ w' =
          ground (arith, h, seen, e) in
        (
          value,
          subst (InForce w.org r) same (record {
            setting = refl;
            newest =
                ap repo.newest (select-insert_row w.org w.db.target_policies r seen)
                ∙ newest-append (select w.org (λ s. true) w.db.target_policies) r less;
          }),
        )
  ]
  | inr e ↦ cc
]

insert-InForce :
    (org user : ℕ) (es : List Text) (w : World) (row : TargetPolicy) (w' : World)
    → repo.insert_next_version org user es w ≡ (ok row, w')
    → (row.version ≡ repo.version_of (repo.current_row w) + 1)
      × (row.allowlist ≡ es)
      × InForce w.org row w'
unfolding repo.insert_next_version ◌>>=◌ draw gets repo.current repo.current_row repo.version_of
insert-InForce org user es w row w' h =
    let stored = store-InForce _ (record w { drawn = suc w.drawn }) row w' (less w) h in
    (
      ap (λ r. r.version) stored.0,
      ap (λ r. r.allowlist) stored.0,
      subst (λ r. InForce w.org r w') (sym stored.0) stored.1,
    )
  where
    less :
        (v : World)
        → repo.version_of (repo.current_row v) < repo.version_of (repo.current_row v) + 1
    less v = omega arith

module _ (o : Option ℕ) (row : TargetPolicy) where
  drawing : Keeps (InForce o row) draw
  unfolding draw repo.current_row
  drawing = record { at = λ w h. record { setting = h.setting; newest = h.newest } }

  store_audit : (r : AuditLog) → Keeps (InForce o row) (Audit.store r)
  unfolding Audit.store repo.current_row
  store_audit r = record { at = λ w h. ground arith }

  noted :
      (p : AccessClaims) (a : AuditAction) (e : ℕ) (m : Option AuditMetadata)
      → Keeps (InForce o row) (note p a e m)
  unfolding note Audit.insert
  noted p a e m = search (keeps_rules, store_audit, drawing)

lifted-ran :
    (r : Result PlimsollError (Unit {0})) (w w' : World)
    → policies.lifted r w ≡ (ok tt, w')
    → w ≡ w'
unfolding policies.lifted pure raise
lifted-ran (ok u) w w' h = cc
lifted-ran (err e) w w' h = cc

pub replace-InForce :
    (p : AccessClaims) (es : List Text) (w : World) (row : TargetPolicy) (w' : World)
    → policies.replace p es w ≡ (ok row, w')
    → (row.version ≡ repo.version_of (repo.current_row w) + 1)
      × (row.allowlist ≡ es)
      × InForce w.org row w'
unfolding policies.replace pure
replace-InForce p es w row w' h =
    let r1 = bind-Ran _ _ w row w' h in
    let same = lifted-ran _ w r1.world r1.started in
    let r2 = bind-Ran _ _ r1.world row w' r1.continued in
    let put = insert-InForce p.organization_id p.user_id es r1.world r2.value r2.world r2.started in
    let r3 = bind-Ran _ _ r2.world row w' r2.continued in
    let k = kept_after (noted r1.world.org r2.value p _ _ _) r3.started put.2 in
    let value : r2.value ≡ row = ground (arith, r3.continued) in
    let left : r3.world ≡ w' = ground (arith, r3.continued) in
    (
      ground (arith, put.0, value, ap (λ x. repo.version_of (repo.current_row x)) same),
      ground (arith, put.1, value),
      ground (arith, k, value, left, same),
    )
