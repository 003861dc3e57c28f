-- ===== src/Config/Tests.antt =====
-- Tests of the configuration's lookups and of its validation.
use halephant.Prelude.Map
use halephant.Prelude.Map.{here}
use halephant.Prelude.{
  text_eq, ◌≡◌, refl, List, [], ◌∷◌, none, some, Text, ℕ_discrete, text_dec, codes, false,
}
use halephant.Config.{find_pool, validate}
use halephant.Config.Limits.{PoolIsValid, find_pool-PoolIsValid}
use halephant.Config.Samples.{app_pool, main_cluster, one_cluster}
use halephant.Config.Reload.{Loaded, unreadable, decoded, reload_all}
use halephant.Config.Reload.Kept.{SameBound, reload_all-Kept}
use halephant.Config.Unique.{find_pool-validate}

one_cluster-validate : validate one_cluster ≡ none
unfolding validate ℕ_discrete text_dec halephant.Prelude.Sets.contains
    halephant.Config.validate_cluster halephant.Config.validate_pool
one_cluster-validate = refl

one_cluster-find_pool :
    find_pool one_cluster (codes "shop") ≡ some (codes "main", (main_cluster, app_pool))
unfolding find_pool ℕ_discrete text_dec halephant.Prelude.Map.lookup
one_cluster-find_pool = refl

shop-lookup : Map.lookup (codes "shop") main_cluster.pool ≡ some app_pool
unfolding Map.lookup ℕ_discrete text_dec
shop-lookup = refl

find_pool-validate_example :
    find_pool one_cluster (codes "shop") ≡ some (codes "main", (main_cluster, app_pool))
find_pool-validate_example =
    find_pool-validate one_cluster (codes "shop") app_pool one_cluster-validate (here [])
      shop-lookup

find_pool-PoolIsValid_example : PoolIsValid app_pool
find_pool-PoolIsValid_example =
    find_pool-PoolIsValid one_cluster (codes "shop") (codes "main") main_cluster app_pool
      one_cluster-validate one_cluster-find_pool

-- A file that cannot be read, one that moves the socket, and one that is as before.
abbrev files : List Loaded
files =
    unreadable
    ∷ decoded (record one_cluster { admin = record { listen = some (codes "a") } })
    ∷ decoded one_cluster
    ∷ []

reload_all-Kept_example :
    SameBound one_cluster (reload_all files one_cluster)
    × (validate (reload_all files one_cluster) ≡ none)
reload_all-Kept_example = reload_all-Kept files one_cluster one_cluster-validate
