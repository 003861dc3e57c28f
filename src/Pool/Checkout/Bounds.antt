-- ===== src/Pool/Checkout/Bounds.antt =====
-- A checkout keeps the connections of every node and database within their limit.
use halephant.Prelude.Sets
use halephant.Prelude.Map
use halephant.Prelude.Map.{Map, Unique, Unique-insert}
use halephant.Prelude.{
  ℕ, ◌+◌, ◌≤◌, ◌≡◌, refl, true, List, [], ◌∷◌, Text, text_dec, arith, Option-cases, Bool-cases, inl,
  inr, nat_eq, ltb→lt,
}
use halephant.Config.Types.{Config}
use halephant.Pool.Types.{
  ConnId, PoolKey, key_eq, Pool, total, node_total, pool_at, pop_idle, pop_usable,
}
use halephant.Pool.Limits.{user_has_capacity, pool_has_capacity, resolve_limits}
use halephant.Pool.Totals.{
  share, weight-grow, node_total-insert, node_total-insert-le, length-insert-le, length-pop_usable,
}
use halephant.Pool.Checkout.{
  Pools, evict_idle_for_node, activate, take_idle, evict_then, claim, user_total, attempt,
  try_ranked, rank, try_candidates,
}
use halephant.Pool.Checkout.Victims.{evict_idle_for_node-Evicted, evict_idle_for_node-none}
use halephant.Topology.{Topology}

-- The pools as the theorems see them: one entry for a key, and at most `b` connections of node `n`
-- and database `d`.
pub record IsWithin (n d : Text) (b : ℕ) (pools : Pools) : Type 0 where
  pub unique : Unique pools
  pub bound : node_total n d pools ≤ b

activate-grow :
    (n d : Text) (key : PoolKey) (id : ConnId) (pools : Pools)
    → node_total n d (activate key id pools) ≤ node_total n d pools + share n d key
unfolding activate
activate-grow n d key id pools =
    let p = pool_at key pools in
    let q = record p { active = Sets.insert id p.active } in
    omega (
      arith,
      node_total-insert n d key q pools,
      weight-grow n d key p q (omega (arith, length-insert-le id p.active)),
    )

activate-Unique :
    (key : PoolKey) (id : ConnId) (pools : Pools) → Unique pools → Unique (activate key id pools)
unfolding activate
activate-Unique key id pools u = Unique-insert key _ pools u

pub replaced :
    (n d : Text) (b : ℕ) (key : PoolKey) (q : Pool) (pools : Pools)
    → IsWithin n d b pools
    → total q ≤ total (pool_at key pools)
    → IsWithin n d b (Map.insert key q pools)
replaced n d b key q pools w h = record {
  unique = Unique-insert key q pools w.unique;
  bound = let c = w.bound in omega (arith, node_total-insert-le n d key q pools h);
}

share-le : (n d : Text) (k : PoolKey) → share n d k ≤ 1
share-le n d k = ground arith

module _ (cfg : Config) (topo : Topology) (now idle_timeout max_lifetime : ℕ) where
  take_idle-IsWithin :
      (n d : Text) (b : ℕ) (key : PoolKey) (pools : Pools)
      → IsWithin n d b pools
      → IsWithin n d b (take_idle cfg topo now idle_timeout max_lifetime key pools).0
  unfolding take_idle pop_idle
  take_idle-IsWithin n d b key pools w =
      let p = pool_at key pools in
      let usable = length-pop_usable now idle_timeout max_lifetime p.idle in
      let rest = (pop_usable now idle_timeout max_lifetime p.idle).0 in
      elim (Option-cases (pop_usable now idle_timeout max_lifetime p.idle).1) [
        | inl e ↦
            rw (e, take_idle, pop_idle)
              (replaced n d b key (record p { idle = rest }) pools w (omega (arith, usable)))
        | inr (c, e) ↦
            let q = record p { idle = rest; active = Sets.insert c.id p.active } in
            rw (e, take_idle, pop_idle)
              (replaced n d b key q pools w
                (ground (arith, usable, length-insert-le c.id p.active)))
      ]

module _ (cfg : Config) (topo : Topology) (now idle_timeout max_lifetime : ℕ) (n d : Text) (b : ℕ)
    (limit : (k : PoolKey)
      → k.node ≡ n
      → k.database ≡ d
      → (resolve_limits cfg topo k).pool_max ≤ b) where
  room :
      (key : PoolKey) (pools : Pools)
      → node_total n d pools ≤ b
      → pool_has_capacity (resolve_limits cfg topo key) (node_total key.node key.database pools)
        ≡ true
      → node_total n d pools + share n d key ≤ b
  unfolding pool_has_capacity
  room key pools h c = elim (text_dec key.node n) [
    | no m ↦ ground arith
    | yes p ↦ elim (text_dec key.database d) [
      | no m ↦ ground arith
      | yes q ↦
          let here : node_total key.node key.database pools ≡ node_total n d pools =
            rw (p, q) refl in
          omega (arith, limit key p q, share-le n d key, ltb→lt _ _ c, here)
    ]
  ]

  activate-IsWithin :
      (key : PoolKey) (id : ConnId) (pools : Pools)
      → Unique pools
      → node_total n d pools + share n d key ≤ b
      → IsWithin n d b (activate key id pools)
  activate-IsWithin key id pools u h = record {
    unique = activate-Unique key id pools u;
    bound = omega (arith, activate-grow n d key id pools);
  }

  evict_then-IsWithin :
      (key : PoolKey) (next : ConnId) (pools : Pools)
      → IsWithin n d b pools
      → IsWithin n d b
          (evict_then cfg topo now idle_timeout max_lifetime key next
            (evict_idle_for_node key pools)).0
  unfolding evict_then
  evict_then-IsWithin key next pools w = elim (Bool-cases (evict_idle_for_node key pools).1) [
    | inl e ↦
        let v = evict_idle_for_node-Evicted key pools w.unique e in
        let h = w.bound in
        rw (e, evict_then) (activate-IsWithin key next _ v.unique (omega (arith, v.frees n d)))
    | inr e ↦ rw (e, evict_then) (rw (evict_idle_for_node-none key pools e) w)
  ]

  claim-IsWithin :
      (key : PoolKey) (next : ConnId) (pools : Pools)
      → IsWithin n d b pools
      → IsWithin n d b (claim cfg topo now idle_timeout max_lifetime key next pools).0
  unfolding claim
  claim-IsWithin key next pools w =
      elim (Bool-cases (
        user_has_capacity (resolve_limits cfg topo key)
          (user_total cfg topo now idle_timeout max_lifetime key pools))) [
            | inr e ↦ rw (e, claim) w
            | inl e ↦
                elim (Bool-cases (
                  pool_has_capacity (resolve_limits cfg topo key)
                    (node_total key.node key.database pools))) [
                      | inl f ↦
                          rw (e, f, claim)
                            (activate-IsWithin key next pools w.unique (room key pools w.bound f))
                      | inr f ↦ rw (e, f, claim) (evict_then-IsWithin key next pools w)
                    ]
          ]

  attempt-IsWithin :
      (key : PoolKey) (next : ConnId) (pools : Pools)
      → IsWithin n d b pools
      → IsWithin n d b (attempt cfg topo now idle_timeout max_lifetime key next pools).0
  unfolding attempt
  attempt-IsWithin key next pools w =
      let kept = take_idle-IsWithin cfg topo now idle_timeout max_lifetime n d b key pools w in
      elim (Option-cases (take_idle cfg topo now idle_timeout max_lifetime key pools).1) [
        | inl e ↦ rw (e, attempt) (claim-IsWithin key next _ kept)
        | inr (c, e) ↦ rw (e, attempt) kept
      ]

  try_ranked-IsWithin :
      (keys : List PoolKey) (next : ConnId) (pools : Pools)
      → IsWithin n d b pools
      → IsWithin n d b (try_ranked cfg topo now idle_timeout max_lifetime keys next pools).0
  unfolding try_ranked
  try_ranked-IsWithin [] next pools w = w
  try_ranked-IsWithin (key ∷ keys) next pools w =
      let step = attempt cfg topo now idle_timeout max_lifetime key next pools in
      let kept = attempt-IsWithin key next pools w in
      elim (Option-cases step.2) [
        | inl e ↦ rw (e, try_ranked) (try_ranked-IsWithin keys step.1 step.0 kept)
        | inr (r, e) ↦ rw (e, try_ranked) kept
      ]

  -- Whatever the candidates, `try_candidates` keeps one pool for a key, and keeps the connections of
  -- a node and a database at or below `b`, if both held before and no limit of that node and
  -- database exceeds `b`.
  pub try_candidates-IsWithin :
      (candidates : List PoolKey) (next : ConnId) (rr : ℕ) (pools : Pools)
      → IsWithin n d b pools
      → IsWithin n d b
          (try_candidates cfg topo now idle_timeout max_lifetime candidates next rr pools).0
  unfolding try_candidates
  try_candidates-IsWithin candidates next rr pools w =
      try_ranked-IsWithin (rank cfg topo now idle_timeout max_lifetime pools rr candidates).0 next
        pools w
