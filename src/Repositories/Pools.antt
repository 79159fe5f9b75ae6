-- ===== src/Repositories/Pools.antt =====
-- repositories/pools.py
use bonerepo.Pagination as paging
use bonerepo.Store.{
  pool_tenant, run_generator_tenant, run_tenant, ◌>>=◌, World, Exec, Failure, policy, integrity,
  unexpected, draw, current_time,
}
use bonerepo.Prelude.{
  ℕ, ◌+◌, ◌*◌, Bool, true, false, not, ◌&&◌, ◌||◌, Option, some, none, Result, ok, err, List, [],
  ◌∷◌, ◌==◌, if◌then◌else◌,
}
use bonerepo.Prelude.Texts.{Text, codes, text_eq}
use bonerepo.Contracts.Pools.{PoolCreate, PoolUpdate}
use bonerepo.Contracts.Updates.{Field, null, is_null, set_required, set_nullable}
use bonerepo.Store.Rows.{
  GeneratorPool, RunGenerator, RunStatus, queued, starting, running, stopping, RowStatus, active,
  archived,
}
use bonerepo.Store.Table.{
  visible, by_id, select, select_first, update_where, insert_row, taken, is_int4,
}

-- UNIQUE (organization_id, name)
unfoldable pub same_name : GeneratorPool → GeneratorPool → Bool
same_name r s = s.organization_id == r.organization_id && text_eq s.name r.name

unfoldable pub put : List GeneratorPool → World → World
put rows w = record w { db = record w.db { pools = rows } }

unfoldable pub store : GeneratorPool → Exec GeneratorPool
unfolding same_name put
store r w =
    if visible w.org r
    then if taken (same_name r) w.db.pools
      then (err integrity, w)
      else (ok r, put (insert_row r w.db.pools) w)
    else (err policy, w)

unfoldable pub insert : ℕ → PoolCreate → Exec GeneratorPool
insert org_id body = do
  fresh ← draw
  now ← current_time
  store (record {
    id = fresh;
    organization_id = org_id;
    name = body.name;
    runtime = body.runtime;
    config = body.config;
    region = body.region;
    max_generators = body.max_generators;
    max_vus_per_generator = body.max_vus_per_generator;
    status = active;
    created_at = now;
    updated_at = now;
  })

unfoldable pub get : ℕ → Exec (Option GeneratorPool)
get pool_id w = (ok (by_id w.org pool_id w.db.pools), w)

-- A null for a column that is NOT NULL; json.dumps makes a null `config` the JSON null.
unfoldable pub nulls_required : PoolUpdate → Bool
unfolding is_null
nulls_required c = is_null c.name || is_null c.max_generators || is_null c.max_vus_per_generator

unfoldable pub set_json : Field Text → Text → Text
unfolding set_required
set_json null old = codes "null"
set_json f old = set_required f old

unfoldable pub apply : PoolUpdate → ℕ → GeneratorPool → GeneratorPool
unfolding set_required set_nullable set_json
apply c now r = record r {
  name = set_required c.name r.name;
  config = set_json c.config r.config;
  region = set_nullable c.region r.region;
  max_generators = set_required c.max_generators r.max_generators;
  max_vus_per_generator = set_required c.max_vus_per_generator r.max_vus_per_generator;
  updated_at = now;
}

-- Another row with the unique key that the row is about to have.
unfoldable pub clashes : GeneratorPool → GeneratorPool → Bool
unfolding same_name
clashes r s = same_name r s && not (s.id == r.id)

unfoldable pub update_found : ℕ → PoolUpdate → Option GeneratorPool → Exec (Option GeneratorPool)
unfolding apply nulls_required clashes put
update_found pool_id c none w = (ok none, w)
update_found pool_id c (some r) w =
    if nulls_required c || taken (clashes (apply c w.now r)) w.db.pools
    then (err integrity, w)
    else (
      ok (some (apply c w.now r)),
      put (update_where w.org (λ s. s.id == pool_id) (apply c w.now) w.db.pools) w,
    )

unfoldable pub update : ℕ → PoolUpdate → Exec (Option GeneratorPool)
unfolding update_found
update pool_id c w = update_found pool_id c (by_id w.org pool_id w.db.pools) w

unfoldable pub is_archived : RowStatus → Bool
is_archived archived = true
is_archived _ = false

unfoldable pub is_active : RowStatus → Bool
is_active active = true
is_active _ = false

unfoldable pub mark_archived : ℕ → GeneratorPool → GeneratorPool
mark_archived now r = record r { status = archived; updated_at = now }

unfoldable pub archive_found : ℕ → Option GeneratorPool → Exec Bool
unfolding is_archived mark_archived put
archive_found pool_id none w = (ok false, w)
archive_found pool_id (some r) w = if is_archived r.status then (ok false, w) else (
  ok true,
  put
      (update_where w.org (λ s. s.id == pool_id && not (is_archived s.status)) (mark_archived w.now)
        w.db.pools)
      w,
)

unfoldable pub archive : ℕ → Exec Bool
unfolding archive_found
archive pool_id w = archive_found pool_id (by_id w.org pool_id w.db.pools) w

-- SELECT max_generators * max_vus_per_generator WHERE id = :id AND status = 'ACTIVE'
-- The product is one of int4, which may overflow.
unfoldable pub capacity_in : Option GeneratorPool → Result Failure (Option ℕ)
unfolding is_active is_int4
capacity_in none = ok none
capacity_in (some r) =
    if is_active r.status
    then if is_int4 (r.max_generators * r.max_vus_per_generator)
      then ok (some (r.max_generators * r.max_vus_per_generator))
      else err unexpected
    else ok none

unfoldable pub capacity : ℕ → Exec (Option ℕ)
unfolding capacity_in
capacity pool_id w = (capacity_in (by_id w.org pool_id w.db.pools), w)

-- r.status IN ('QUEUED', 'STARTING', 'RUNNING', 'STOPPING')
unfoldable pub is_in_flight : RunStatus → Bool
is_in_flight queued = true
is_in_flight starting = true
is_in_flight running = true
is_in_flight stopping = true
is_in_flight _ = false

unfoldable pub sum_assigned : List RunGenerator → ℕ
sum_assigned [] = 0
sum_assigned (g ∷ gs) = g.assigned_users + sum_assigned gs

-- The join with `test_runs` goes by its primary key.
unfoldable pub has_run_in_flight : World → ℕ → Bool
unfolding is_in_flight
has_run_in_flight w run_id =
    elim (select_first w.org (λ r. r.id == run_id && is_in_flight r.status) w.db.runs) [
      | none ↦ false
      | some _ ↦ true
    ]

unfoldable pub committed_users : ℕ → Exec ℕ
unfolding sum_assigned has_run_in_flight
committed_users pool_id w = (
  ok (
      sum_assigned (
        select w.org (λ g. g.pool_id == pool_id && has_run_in_flight w g.run_id)
          w.db.run_generators)),
  w,
)

unfoldable pub list_page : ℕ → Option paging.Position → Exec (List GeneratorPool)
unfolding paging.list_page
list_page limit after w = (
  ok (
      paging.list_page (λ (r : GeneratorPool). r.created_at) w.org (λ r. true) limit after
        w.db.pools),
  w,
)
