-- ===== src/Contracts/Pools.antt =====
-- plimsoll_contracts/pools.py
use bonerepo.Prelude.{ℕ, Bool, ◌&&◌, Option, List, ◌++◌}
use bonerepo.Prelude.Texts.{Text, codes}
use bonerepo.Contracts.Updates.{Field, is_absent, named}
use bonerepo.Store.Rows.{PoolRuntime}

pub record PoolCreate : Type 0 where
  pub name : Text
  pub runtime : PoolRuntime
  pub config : Text
  pub region : Option Text
  pub max_generators : ℕ
  pub max_vus_per_generator : ℕ

pub record PoolUpdate : Type 0 where
  pub name : Field Text
  pub config : Field Text
  pub region : Field Text
  pub max_generators : Field ℕ
  pub max_vus_per_generator : Field ℕ

-- `if not changes`
unfoldable pub no_changes : PoolUpdate → Bool
unfolding is_absent
no_changes b =
    is_absent b.name
    && is_absent b.config
    && is_absent b.region
    && is_absent b.max_generators
    && is_absent b.max_vus_per_generator

-- sorted(changes)
unfoldable pub changed_fields : PoolUpdate → List Text
unfolding named
changed_fields b =
    named b.config (codes "config")
    ++ (named b.max_generators (codes "max_generators")
        ++ (named b.max_vus_per_generator (codes "max_vus_per_generator")
            ++ (named b.name (codes "name") ++ named b.region (codes "region"))))
