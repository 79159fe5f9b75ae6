-- ===== src/Repositories/Confined/Pools.antt =====
-- repositories/pools.py stays inside the organisation.
use bonerepo.Store.{pool_tenant, Db}
use bonerepo.Prelude.{ℕ, ◌≡◌, refl, Option, none, some, arith, not, ◌&&◌, ◌==◌}
use bonerepo.Store.Rows.{GeneratorPool}
use bonerepo.Store.Table.{by_id}
use bonerepo.Store.Table.Outside.{outside-insert_row, outside-update_where}
use bonerepo.Store.Keeps.{Keeps, keeps_rules}
use bonerepo.Store.Confined.{Inside, Inside-draw}
use bonerepo.Contracts.Pools.{PoolCreate, PoolUpdate}
use bonerepo.Repositories.Pools as repo

module _ (o : ℕ) (s : Option ℕ) (d : Db) where
  store_pool : (r : GeneratorPool) → Keeps (Inside o s d) (repo.store r)
  unfolding repo.store
  store_pool r = record { at = λ w h. ground (arith, outside-insert_row (some o) r w.db.pools) }

  pub insert_pool : (org : ℕ) (body : PoolCreate) → Keeps (Inside o s d) (repo.insert org body)
  unfolding repo.insert
  insert_pool org body = search (keeps_rules, store_pool, Inside-draw)

  pub get_pool : (id : ℕ) → Keeps (Inside o s d) (repo.get id)
  unfolding repo.get
  get_pool id = record { at = λ w h. h }

  pub capacity_pool : (id : ℕ) → Keeps (Inside o s d) (repo.capacity id)
  unfolding repo.capacity
  capacity_pool id = record { at = λ w h. h }

  pub committed_users : (id : ℕ) → Keeps (Inside o s d) (repo.committed_users id)
  unfolding repo.committed_users
  committed_users id = record { at = λ w h. h }

  apply-same_org :
      (c : PoolUpdate) (now : ℕ) (r : GeneratorPool)
      → (repo.apply c now r).organization_id ≡ r.organization_id
  unfolding repo.apply
  apply-same_org c now r = refl

  updated_pool :
      (id : ℕ) (c : PoolUpdate) (found : Option GeneratorPool)
      → Keeps (Inside o s d) (repo.update_found id c found)
  unfolding repo.update_found
  updated_pool id c none = record { at = λ w h. h }
  updated_pool id c (some r) = record {
    at = λ w h. ground (
      arith,
      outside-update_where (some o) (λ s. s.id == id) (repo.apply c w.now) w.db.pools
          (apply-same_org c w.now),
    );
  }

  pub update_pool : (id : ℕ) (c : PoolUpdate) → Keeps (Inside o s d) (repo.update id c)
  unfolding repo.update
  update_pool id c = record { at = λ w h. (updated_pool id c (by_id w.org id w.db.pools)).at w h }

  archived_pool :
      (id : ℕ) (found : Option GeneratorPool) → Keeps (Inside o s d) (repo.archive_found id found)
  unfolding repo.archive_found
  archived_pool id none = record { at = λ w h. h }
  archived_pool id (some r) = record {
    at = λ w h. ground (
      arith,
      outside-update_where (some o) (λ s. s.id == id && not (repo.is_archived s.status))
          (repo.mark_archived w.now) w.db.pools (λ s. refl),
    );
  }

  pub archive_pool : (id : ℕ) → Keeps (Inside o s d) (repo.archive id)
  unfolding repo.archive
  archive_pool id = record { at = λ w h. (archived_pool id (by_id w.org id w.db.pools)).at w h }

pub ruleset pools_rules =
    (insert_pool, get_pool, capacity_pool, committed_users, update_pool, archive_pool)
