-- ===== src/Pool/Checkout.antt =====
-- `try_candidates` and what it calls, in crates/halephant-core/src/pool/checkout.rs.
pub mod Victims
pub mod Bounds
use halephant.Prelude.Sets
use halephant.Prelude.Map
use halephant.Prelude.Map.{Map}
use halephant.Prelude.{
  ℕ, zero, suc, ◌+◌, ◌-◌, ◌%◌, ◌^◌, ◌++◌, Bool, true, false, List, [], ◌∷◌, Option, none, some,
  Text, text_eq, text_dec, nat_eq, length, ltb, leb, ite, if◌then◌else◌, map,
}
use halephant.Config.{find_pool}
use halephant.Config.Types.{Config}
use halephant.Pool.Types.{
  ConnId, Routing, PoolKey, key_eq, IdleConn, Pool, empty_pool, CandidateResult, got_idle, claimed,
  all_full, total, node_total, pop_idle, pool_at,
}
use halephant.Pool.Limits.{Limits, user_has_capacity, pool_has_capacity, resolve_limits}
use halephant.Topology.{Topology, primary, replicas}

abbrev pub Pools : Type 0
Pools = Map PoolKey Pool

-- The keys to try for a routing: the primary, or every replica.
unfoldable pub resolve_candidates : Config → Topology → Text → Text → Routing → List PoolKey
resolve_candidates cfg topo database user routing = elim (find_pool cfg database) [
  | none ↦ []
  | some (cluster_name, _) ↦ elim routing [
    | Routing.primary ↦ elim (primary topo cluster_name) [
      | none ↦ []
      | some node ↦ record { node = node; database = database; user = user } ∷ []
    ]
    | Routing.replica ↦
        map (λ node. record { node = node; database = database; user = user })
          (replicas topo cluster_name)
  ]
]

-- The pool of the node and database whose oldest idle connection is the oldest; the first of them
-- if there are several.
older : PoolKey → Pool → Option (PoolKey × ℕ) → List IdleConn → Option (PoolKey × ℕ)
older k p best [] = best
older k p none (c ∷ _) = some (k, c.idle_since)
older k p (some (j, since)) (c ∷ _) =
    if ltb c.idle_since since then some (k, c.idle_since) else some (j, since)

pub victim : PoolKey → Option (PoolKey × ℕ) → Pools → Option (PoolKey × ℕ)
unfolding older
victim key best [] = best
victim key best ((k, p) ∷ rest) =
    victim key
      (ite (text_dec k.node key.node)
        (ite (text_dec k.database key.database) (older k p best p.idle) best) best)
      rest

-- `pool.idle.pop_front()`.
drop_front : List IdleConn → List IdleConn
drop_front [] = []
drop_front (_ ∷ rest) = rest

pub evict_at : PoolKey → Option Pool → Pools → Pools
unfolding drop_front
evict_at key none pools = pools
evict_at key (some p) pools = Map.insert key (record p { idle = drop_front p.idle }) pools

unfoldable pub evict_idle_for_node : PoolKey → Pools → Pools × Bool
unfolding victim evict_at
evict_idle_for_node key pools = elim (victim key none pools) [
  | none ↦ (pools, false)
  | some (vk, _) ↦ (evict_at vk (Map.lookup vk pools) pools, true)
]

-- `active.insert(id)` in the pool of a key.
unfoldable pub activate : PoolKey → ConnId → Pools → Pools
activate key id pools =
    let p = pool_at key pools in
    Map.insert key (record p { active = Sets.insert id p.active }) pools

module _ (cfg : Config) (topo : Topology) (now idle_timeout max_lifetime : ℕ) where
  -- An idle connection of the key, made active, or the pool without its expired ones.
  unfoldable pub take_idle : PoolKey → Pools → Pools × Option IdleConn
  take_idle key pools =
      let (p, found) = pop_idle now idle_timeout max_lifetime (pool_at key pools) in
      elim found [
        | none ↦ (Map.insert key p pools, none)
        | some c ↦ (Map.insert key (record p { active = Sets.insert c.id p.active }) pools, some c)
      ]

  user_total : PoolKey → Pools → ℕ
  user_total key pools = elim (Map.lookup key pools) [ some p ↦ total p | none ↦ 0 ]

  -- A slot for a new connection; `next` is the next free `ConnId`.
  evict_then : PoolKey → ConnId → Pools × Bool → Pools × ConnId × Option CandidateResult
  evict_then key next (kept, true) = (activate key next kept, next + 1, some (claimed key next))
  evict_then key next (kept, false) = (kept, next, none)

  unfoldable pub claim : PoolKey → ConnId → Pools → Pools × ConnId × Option CandidateResult
  unfolding user_total evict_then
  claim key next pools =
      let limits = resolve_limits cfg topo key in
      if user_has_capacity limits (user_total key pools)
      then if pool_has_capacity limits (node_total key.node key.database pools)
        then (activate key next pools, next + 1, some (claimed key next))
        else evict_then key next (evict_idle_for_node key pools)
      else (pools, next, none)

  -- One round of the loop over the candidates.
  unfoldable pub attempt : PoolKey → ConnId → Pools → Pools × ConnId × Option CandidateResult
  attempt key next pools =
      let (kept, found) = take_idle key pools in
      elim found [ some c ↦ (kept, next, some (got_idle key c)) | none ↦ claim key next kept ]

  unfoldable pub try_ranked : List PoolKey → ConnId → Pools → Pools × ConnId × CandidateResult
  try_ranked [] next pools = (pools, next, all_full)
  try_ranked (key ∷ rest) next pools =
      let (kept, next', outcome) = attempt key next pools in
      let later = try_ranked rest next' kept in
      elim outcome [ some result ↦ (kept, next', result) | none ↦ later ]

  -- `rotate_left`, and the stable sort by the number of active connections.
  rotate_left : ℕ → List PoolKey → List PoolKey
  rotate_left zero keys = keys
  rotate_left (suc n) [] = []
  rotate_left (suc n) (key ∷ keys) = rotate_left n (keys ++ key ∷ [])

  active_at : Pools → PoolKey → ℕ
  active_at pools key = elim (Map.lookup key pools) [ some p ↦ length p.active | none ↦ 0 ]

  place : Pools → PoolKey → List PoolKey → List PoolKey
  unfolding active_at
  place pools key [] = key ∷ []
  place pools key (k ∷ keys) =
      let later = place pools key keys in
      if leb (active_at pools key) (active_at pools k) then key ∷ k ∷ keys else k ∷ later

  sort : Pools → List PoolKey → List PoolKey
  unfolding place
  sort pools [] = []
  sort pools (key ∷ keys) = place pools key (sort pools keys)

  -- The candidates in the order they are tried, and the round-robin counter after it.
  unfoldable pub rank : Pools → ℕ → List PoolKey → List PoolKey × ℕ
  unfolding rotate_left sort
  rank pools rr candidates =
      if ltb 1 (length candidates)
      then (sort pools (rotate_left (rr % length candidates) candidates), (rr + 1) % 2 ^ 64)
      else (candidates, rr)

  -- The pools, the next `ConnId` and the round-robin counter, then the outcome.
  unfoldable pub try_candidates :
      List PoolKey → ConnId → ℕ → Pools → Pools × ConnId × ℕ × CandidateResult
  try_candidates candidates next rr pools =
      let (ranked, rr') = rank pools rr candidates in
      let (kept, next', result) = try_ranked ranked next pools in (kept, next', rr', result)

-- `discard_internal`, before it wakes a waiter.
unfoldable pub discard : PoolKey → ConnId → Pools → Pools
discard key id pools = elim (Map.lookup key pools) [
  | none ↦ pools
  | some p ↦ Map.insert key (record p { active = Sets.remove id p.active }) pools
]
