-- ===== src/Config.antt =====
-- crates/halephant-core/src/config/mod.rs and the checks of config/cluster/ and config/server.rs:
-- the lookups of a pool and of a user, and the validation of a parsed file.
pub mod Types
pub mod Unique
pub mod Limits
pub mod Samples
pub mod Reload
mod Tests
use halephant.Prelude.Sets
use halephant.Prelude.Map
use halephant.Prelude.{
  ℕ, ◌+◌, ◌%◌, ◌^◌, ◌⊎◌, inl, inr, Bool, true, false, List, [], ◌∷◌, Option, none, some, Text,
  text_eq, ltb, if◌then◌else◌,
}
use halephant.Prelude.Map.{Map}
use halephant.Config.Types.{UserConfig, PoolConfig, session, ClusterConfig, ServerConfig, Config}

-- A pool as it is found: its cluster's name, the cluster and the pool.
abbrev pub Found : Type 0
Found = Text × (ClusterConfig × PoolConfig)

find_in : Text → Map Text ClusterConfig → Option Found
find_in database [] = none
find_in database ((name, cluster) ∷ rest) = elim (Map.lookup database cluster.pool) [
  | some pool ↦ some (name, (cluster, pool))
  | none ↦ find_in database rest
]

unfoldable pub find_pool : Config → Text → Option Found
unfolding find_in
find_pool cfg database = find_in database cfg.cluster

unfoldable pub find_user : Config → Text → Text → Option UserConfig
unfolding find_pool
find_user cfg database user = elim (find_pool cfg database) [
  | none ↦ none
  | some (_, (_, pool)) ↦ Map.lookup user pool.user
]

unfoldable pub is_user_allowed : Config → Text → Text → Bool
unfolding find_user
is_user_allowed cfg database user = elim (find_user cfg database user) [
  | some _ ↦ true
  | none ↦ false
]

unfoldable pub database_name : PoolConfig → Text → Text
database_name pool key = elim pool.database [ some name ↦ name | none ↦ key ]

unfoldable pub upstream_name : UserConfig → Text → Text
upstream_name user key = elim user.alias [ some name ↦ name | none ↦ key ]

-- Whether the user has no capacity on a primary and some on a replica.
unfoldable pub is_read_only : UserConfig → Bool
is_read_only user = elim user.max_connections [
  | none ↦ false
  | some limits ↦ if ltb 0 limits.primary then false else ltb 0 limits.replica
]

-- `ConfigError::Validation` by the message it carries, with what the message prints.
pub data Invalid : Type 0 where
  no_listen : Invalid
  duplicate_database : Text → Invalid
  no_nodes : Text → Invalid
  no_users : Text → Invalid
  listen_in_session : Text → Invalid
  min_primary : Text → ℕ → ℕ → Invalid
  min_replica : Text → ℕ → ℕ → Invalid

-- `Ok(())` is `none`. The two checks in a row of the `?` operator.
abbrev pub and_then : Option Invalid → Option Invalid → Option Invalid
and_then (some e) later = some e
and_then none later = later

-- The sum of `u32` values, which wraps around in a release build.
unfoldable pub sum_u32 : (UserConfig → ℕ) → Map Text UserConfig → ℕ
sum_u32 f [] = 0
sum_u32 f ((_, user) ∷ rest) = (f user + sum_u32 f rest) % 2 ^ 32

pub is_nil : {A : Type 0} → List A → Bool
is_nil [] = true
is_nil (_ ∷ _) = false

check_listen_mode : Text → PoolConfig → Option Invalid
check_listen_mode name pool = elim (pool.mode) [
  | session ↦ elim pool.listen_mode [ some _ ↦ some (listen_in_session name) | none ↦ none ]
  | Types.transaction ↦ none
]

check_minimum : (Text → ℕ → ℕ → Invalid) → Text → ℕ → ℕ → Option Invalid
check_minimum error name total limit =
    if ltb limit total then some (error name total limit) else none

-- `PoolConfig::validate`.
unfoldable pub validate_pool : Text → PoolConfig → Option Invalid
unfolding is_nil check_listen_mode check_minimum sum_u32
validate_pool name pool =
    if is_nil pool.user
    then some (no_users name)
    else and_then (check_listen_mode name pool) (
        and_then
          (check_minimum min_primary name (sum_u32 (λ u. u.min_connections.primary) pool.user)
            pool.max_connections.primary)
          (check_minimum min_replica name (sum_u32 (λ u. u.min_connections.replica) pool.user)
            pool.max_connections.replica))

validate_pools : Map Text PoolConfig → Option Invalid
validate_pools [] = none
validate_pools ((name, pool) ∷ rest) = and_then (validate_pool name pool) (validate_pools rest)

-- `ClusterConfig::validate`.
unfoldable pub validate_cluster : Text → ClusterConfig → Option Invalid
unfolding is_nil validate_pools
validate_cluster name cluster =
    if is_nil cluster.nodes then some (no_nodes name) else validate_pools cluster.pool

pub validate_clusters : Map Text ClusterConfig → Option Invalid
validate_clusters [] = none
validate_clusters ((name, cluster) ∷ rest) =
    and_then (validate_cluster name cluster) (validate_clusters rest)

-- `ServerConfig::validate`.
unfoldable pub validate_server : ServerConfig → Option Invalid
unfolding is_nil
validate_server server = if is_nil server.listen then some no_listen else none

-- The set of databases seen so far, or the first one seen twice.
see_databases : List Text → Map Text PoolConfig → Text ⊎ List Text
see_databases seen [] = inr seen
see_databases seen ((name, _) ∷ rest) =
    if Sets.contains name seen then inl name else see_databases (Sets.insert name seen) rest

pub check_databases : List Text → Map Text ClusterConfig → Option Invalid
unfolding see_databases
check_databases seen [] = none
check_databases seen ((_, cluster) ∷ rest) = elim (see_databases seen cluster.pool) [
  | inl name ↦ some (duplicate_database name)
  | inr seen' ↦ check_databases seen' rest
]

unfoldable pub validate : Config → Option Invalid
unfolding validate_server check_databases validate_clusters
validate cfg =
    and_then (validate_server cfg.server)
      (and_then (check_databases [] cfg.cluster) (validate_clusters cfg.cluster))
