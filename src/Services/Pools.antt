-- ===== src/Services/Pools.antt =====
-- services/pools.py
use bonerepo.Store.{◌>>◌, ◌>>=◌, Exec, plimsoll, pure, or_raise, on_integrity}
use bonerepo.Prelude.{ℕ, Option, none, some, if◌then◌else◌}
use bonerepo.Prelude.Int.{ℤ, sub_ℕ}
use bonerepo.Tokens.{AccessClaims}
use bonerepo.Contracts.Errors.{not_found, conflict}
use bonerepo.Contracts.Pools.{PoolCreate, PoolUpdate, no_changes, changed_fields}
use bonerepo.Store.Rows.{GeneratorPool, pool_created, pool_updated, pool_deleted, runtime, fields}
use bonerepo.Repositories.Pools as repo
use bonerepo.Services.Audit.{note}

unfoldable pub create : AccessClaims → PoolCreate → Exec GeneratorPool
create principal body = do
  row ←
      on_integrity (plimsoll (record { code = conflict; details = none }))
        (repo.insert principal.organization_id body)
  note principal pool_created row.id (some (runtime body.runtime))
  pure row

unfoldable pub require : ℕ → Exec GeneratorPool
require pool_id = do
  found ← repo.get pool_id
  or_raise (plimsoll (record { code = not_found; details = none })) found

unfoldable pub update : AccessClaims → ℕ → PoolUpdate → Exec (Option GeneratorPool)
update principal pool_id body = do
  current ← require pool_id
  if no_changes body then pure (some current) else do
    row ← repo.update pool_id body
    note principal pool_updated pool_id (some (fields (changed_fields body)))
    pure row

unfoldable pub archive : AccessClaims → ℕ → Exec (Unit {0})
archive principal pool_id = do
  current ← require pool_id
  done ← repo.archive pool_id
  if done then note principal pool_deleted pool_id none else pure tt

-- Python's ints are signed: the pool may be committed beyond what it can supply.
unfoldable pub capacity_for : ℕ → Exec ℤ
capacity_for pool_id = do
  found ← repo.capacity pool_id
  total ← or_raise (plimsoll (record { code = not_found; details = none })) found
  committed ← repo.committed_users pool_id
  pure (sub_ℕ total committed)
