-- ===== src/Pool/Refill.antt =====
-- Check-in, reset and refill: crates/halephant-core/src/pool/types.rs (`ConnGuard::checkin`,
-- `ResetGuard`), pool/refill.rs and the drains of pool/mod.rs. Opening, resetting and probing a
-- connection is I/O: its outcome is an argument.
pub mod Floor
pub mod Cycle
use halephant.Prelude.Sets
use halephant.Prelude.Map
use halephant.Prelude.Map.{Map}
use halephant.Prelude.{
  ℕ, zero, suc, ◌+◌, ◌-◌, ◌++◌, Bool, true, false, not, List, [], ◌∷◌, Option, none, some, Text,
  text_eq, text_dec, nat_eq, length, ltb, leb, ite, if◌then◌else◌, retain,
}
use halephant.Config.{find_pool}
use halephant.Config.Types.{UserConfig, PoolConfig, ClusterConfig, Config}
use halephant.Pool.Types.{ConnId, PoolKey, key_eq, ServerConn, IdleConn, Pool, total, pool_at}
use halephant.Pool.Limits.{min_for_key}
use halephant.Pool.Checkout.{Pools}
use halephant.Topology.{Topology, primary, replicas}

-- `get_mut(key)` and a change of the pool, if there is one.
unfoldable pub modify : PoolKey → (Pool → Pool) → Pools → Pools
modify key f pools = elim (Map.lookup key pools) [
  | some p ↦ Map.insert key (f p) pools
  | none ↦ pools
]

unfoldable pub checkin : PoolKey → ConnId → Pools → Pools
checkin key id pools =
    modify key
      (λ p. record p { active = Sets.remove id p.active; resetting = Sets.insert id p.resetting })
      pools

-- `reset_and_return` after a reset that succeeded, with whether a pool took the connection.
unfoldable pub return_reset : PoolKey → ConnId → ServerConn → ℕ → Pools → Pools × Bool
return_reset key id conn now pools = elim (Map.lookup key pools) [
  | none ↦ (pools, false)
  | some p ↦ (
    Map.insert key
        (record p {
          resetting = Sets.remove id p.resetting;
          idle = p.idle ++ record { id = id; conn = conn; idle_since = now } ∷ [];
        })
        pools,
    true,
  )
]

-- After a reset that failed, and when the guard of a reset is dropped.
unfoldable pub drop_reset : PoolKey → ConnId → Pools → Pools
drop_reset key id pools =
    modify key (λ p. record p { resetting = Sets.remove id p.resetting }) pools

-- A connection that `spawn_connections` opened.
unfoldable pub add_opened : PoolKey → ConnId → ServerConn → ℕ → Pools → Pools
add_opened key id conn now pools =
    let p = pool_at key pools in
    Map.insert key
      (record p { idle = p.idle ++ record { id = id; conn = conn; idle_since = now } ∷ [] }) pools

-- `retain` with a count of the entries that may still go.
unfoldable pub drop_stale : (IdleConn → Bool) → ℕ → List IdleConn → List IdleConn
drop_stale stale removable [] = []
drop_stale stale zero (c ∷ rest) = c ∷ rest
drop_stale stale (suc removable) (c ∷ rest) =
    let dropped = drop_stale stale removable rest in
    let kept = drop_stale stale (suc removable) rest in if stale c then dropped else c ∷ kept

module _ (is_alive : ServerConn → Bool) (cfg : Config) (topo : Topology) (now : ℕ) where
  idle_timeout_of : PoolKey → ℕ
  idle_timeout_of key = elim (find_pool cfg key.database) [
    | some (_, (_, p)) ↦ p.idle_timeout
    | none ↦ 300000
  ]

  max_lifetime_of : PoolKey → ℕ
  max_lifetime_of key = elim (find_pool cfg key.database) [
    | some (_, (_, p)) ↦ p.max_lifetime
    | none ↦ 3600000
  ]

  -- Not past its lifetime and with a live socket.
  unfoldable pub is_healthy : PoolKey → IdleConn → Bool
  unfolding max_lifetime_of
  is_healthy key c =
      if leb (now - c.conn.created_at) (max_lifetime_of key) then is_alive c.conn else false

  unfoldable pub is_stale : PoolKey → IdleConn → Bool
  unfolding idle_timeout_of
  is_stale key c = ltb (idle_timeout_of key) (now - c.idle_since)

  -- The idle connections of one pool that are kept.
  unfoldable pub scavenge_idle : PoolKey → List IdleConn → List IdleConn
  scavenge_idle key idle =
      let live = retain (is_healthy key) idle in
      drop_stale (is_stale key) (length live - min_for_key cfg topo key) live

  -- Every pool after a scavenge.
  unfoldable pub scavenge : Pools → Pools
  scavenge [] = []
  scavenge ((key, p) ∷ rest) = (key, record p { idle = scavenge_idle key p.idle }) ∷ scavenge rest

-- `drain_node` and `drain_all`.
unfoldable pub drain_node : Text → Pools → Pools
drain_node node [] = []
drain_node node ((key, p) ∷ rest) =
    (key, ite (text_dec key.node node) (record p { idle = [] }) p) ∷ drain_node node rest

unfoldable pub drain_all : Pools → Pools
drain_all [] = []
drain_all ((key, p) ∷ rest) = (key, record p { idle = [] }) ∷ drain_all rest

module _ (topo : Topology) (pools : Pools) where
  current : PoolKey → ℕ
  current key = elim (Map.lookup key pools) [ some p ↦ total p | none ↦ 0 ]

  deficit : PoolKey → ℕ → List (PoolKey × ℕ)
  unfolding current
  deficit key want = if ltb (current key) want then (key, want - current key) ∷ [] else []

  replica_deficits : Text → Text → ℕ → List Text → List (PoolKey × ℕ)
  unfolding deficit
  replica_deficits database user want [] = []
  replica_deficits database user want (node ∷ nodes) =
      deficit (record { node = node; database = database; user = user }) want
      ++ replica_deficits database user want nodes

  primary_deficit : Text → Text → ℕ → Option Text → List (PoolKey × ℕ)
  unfolding deficit
  primary_deficit database user want none = []
  primary_deficit database user want (some node) =
      if ltb 0 want
      then deficit (record { node = node; database = database; user = user }) want
      else []

  user_deficits : Text → Text → Map Text UserConfig → List (PoolKey × ℕ)
  unfolding primary_deficit replica_deficits
  user_deficits cluster database [] = []
  user_deficits cluster database ((user, u) ∷ rest) =
      primary_deficit database user u.min_connections.primary (primary topo cluster)
      ++ ((if ltb 0 u.min_connections.replica
            then replica_deficits database user u.min_connections.replica (replicas topo cluster)
            else [])
          ++ user_deficits cluster database rest)

  pool_deficits : Text → Map Text PoolConfig → List (PoolKey × ℕ)
  unfolding user_deficits
  pool_deficits cluster [] = []
  pool_deficits cluster ((database, p) ∷ rest) =
      user_deficits cluster database p.user ++ pool_deficits cluster rest

  cluster_deficits : Map Text ClusterConfig → List (PoolKey × ℕ)
  unfolding pool_deficits
  cluster_deficits [] = []
  cluster_deficits ((cluster, c) ∷ rest) = pool_deficits cluster c.pool ++ cluster_deficits rest

  -- The keys below their minimum, with what is missing.
  unfoldable pub shortfalls : Config → List (PoolKey × ℕ)
  unfolding cluster_deficits
  shortfalls cfg = cluster_deficits cfg.cluster
