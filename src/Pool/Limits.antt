-- ===== src/Pool/Limits.antt =====
-- crates/halephant-core/src/pool/candidates.rs: the limits of a pool, from the configuration and
-- the role of its node.
use halephant.Prelude.Map
use halephant.Prelude.{
  ℕ, Bool, true, false, Option, none, some, Text, text_eq, text_dec, ite, if◌then◌else◌, ltb,
}
use halephant.Prelude.Sets
use halephant.Config.{find_pool}
use halephant.Config.Types.{ConnectionLimits, UserConfig, Config}
use halephant.Pool.Types.{NodeRole, PoolKey}
use halephant.Topology.{Topology, primary, replicas}

pub record Limits : Type 0 where
  pub pool_max : ℕ
  pub user_max : Option ℕ

unfoldable pub user_has_capacity : Limits → ℕ → Bool
user_has_capacity limits user_total = elim limits.user_max [
  | some max ↦ ltb user_total max
  | none ↦ true
]

unfoldable pub pool_has_capacity : Limits → ℕ → Bool
pool_has_capacity limits node_total = ltb node_total limits.pool_max

-- `self.topology.primary(cluster_name).as_deref() == Some(node)`.
is_primary : Option Text → Text → Bool
is_primary none node = false
is_primary (some p) node = ite (text_dec p node) true false

unfoldable pub role_for_node : Topology → Text → Text → NodeRole
unfolding is_primary
role_for_node topo cluster node =
    if is_primary (primary topo cluster) node
    then NodeRole.primary
    else if Sets.contains node (replicas topo cluster)
    then NodeRole.replica
    else NodeRole.unknown

-- The `match role` that picks a limit.
by_role : NodeRole → ConnectionLimits → ℕ
by_role NodeRole.primary limits = limits.primary
by_role NodeRole.replica limits = limits.replica
by_role NodeRole.unknown limits = 0

user_limit : NodeRole → Option UserConfig → Option ℕ
user_limit role none = none
user_limit role (some u) = elim u.max_connections [
  | some limits ↦ some (by_role role limits)
  | none ↦ none
]

unfoldable pub resolve_limits : Config → Topology → PoolKey → Limits
unfolding by_role user_limit
resolve_limits cfg topo key = elim (find_pool cfg key.database) [
  | none ↦ record { pool_max = 0; user_max = some 0 }
  | some (cluster_name, (_, pool_config)) ↦
      let role = role_for_node topo cluster_name key.node in
      record {
        pool_max = by_role role pool_config.max_connections;
        user_max = user_limit role (Map.lookup key.user pool_config.user);
      }
]

unfoldable pub min_for_key : Config → Topology → PoolKey → ℕ
unfolding by_role
min_for_key cfg topo key = elim (find_pool cfg key.database) [
  | none ↦ 0
  | some (cluster_name, (_, pool_config)) ↦ elim (Map.lookup key.user pool_config.user) [
    | none ↦ 0
    | some u ↦ by_role (role_for_node topo cluster_name key.node) u.min_connections
  ]
]
