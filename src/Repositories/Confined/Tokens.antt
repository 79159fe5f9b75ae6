-- ===== src/Repositories/Confined/Tokens.antt =====
-- repositories/target_policy.py and refresh_tokens.py stay inside the organisation.
use bonerepo.Store.{family_tenant, history_tenant, target_policy_tenant, Db}
use bonerepo.Prelude.{ℕ, Option, refl, some, List, arith, ◌==◌}
use bonerepo.Prelude.Texts.{Text}
use bonerepo.Store.Rows.{TargetPolicy}
use bonerepo.Store.Table.Outside.{outside-insert_row, outside-update_where}
use bonerepo.Store.Keeps.{Keeps, keeps_rules}
use bonerepo.Store.Confined.{Inside, Inside-draw}
use bonerepo.Repositories.TargetPolicies as policies
use bonerepo.Repositories.RefreshTokens as tokens

module _ (o : ℕ) (s : Option ℕ) (d : Db) where
  store_policy : (r : TargetPolicy) → Keeps (Inside o s d) (policies.store r)
  unfolding policies.store
  store_policy r = record {
    at = λ w h. ground (arith, outside-insert_row (some o) r w.db.target_policies);
  }

  pub current : Keeps (Inside o s d) policies.current
  unfolding policies.current
  current = record { at = λ w h. h }

  pub insert_next_version :
      (org user : ℕ) (allowlist : List Text)
      → Keeps (Inside o s d) (policies.insert_next_version org user allowlist)
  unfolding policies.insert_next_version
  insert_next_version org user allowlist = search (keeps_rules, store_policy, current, Inside-draw)

  pub find_by_hash : (h : ℕ) → Keeps (Inside o s d) (tokens.find_by_hash h)
  unfolding tokens.find_by_hash
  find_by_hash h = record { at = λ w k. k }

  pub get_profile : (id : ℕ) → Keeps (Inside o s d) (tokens.get_profile id)
  unfolding tokens.get_profile
  get_profile id = record { at = λ w k. k }

  pub replace_hash : (id hash : ℕ) → Keeps (Inside o s d) (tokens.replace_hash id hash)
  unfolding tokens.replace_hash
  replace_hash id hash = record {
    at = λ w h. ground (
      arith,
      outside-update_where (some o) (λ r. r.id == id) (tokens.set_hash hash) w.db.families
          (λ r. refl),
    );
  }

  pub revoke_family : (hash : ℕ) → Keeps (Inside o s d) (tokens.revoke_family_containing hash)
  unfolding tokens.revoke_family_containing
  revoke_family hash = record {
    at = λ w h. ground (
      arith,
      outside-update_where (some o) (tokens.is_family (tokens.family_seen w hash))
          (tokens.revoke w.now) w.db.families (λ r. refl),
    );
  }

  pub record_history :
      (family org hash : ℕ) → Keeps (Inside o s d) (tokens.record_history family org hash)
  unfolding tokens.record_history
  record_history family org hash = record {
    at = λ w h. ground (
      arith,
      outside-insert_row (some o)
          (record { token_hash = hash; family_id = family; organization_id = org }) w.db.history,
    );
  }

pub ruleset tokens_rules = (
  current, insert_next_version, find_by_hash, get_profile, replace_hash, revoke_family,
  record_history,
)
