-- ===== src/Pool/Totals.antt =====
-- How a write to one pool changes the connections of a node and a database.
use halephant.Prelude.Sets
use halephant.Prelude.Map
use halephant.Prelude.Map.{Map, total-insert, Unique, Unique-insert}
use halephant.Prelude.{
  ℕ, ◌+◌, ◌≤◌, ◌≡◌, refl, sym, List, [], ◌∷◌, Option, none, some, Text, text_dec, nat_eq, length,
  ite, arith,
}
use halephant.Pool.Types.{
  PoolKey, key_eq, IdleConn, Pool, empty_pool, total, weight, node_total, pool_at, pop_usable,
}

-- One connection of a key, as it counts for a node and a database.
abbrev pub share : Text → Text → PoolKey → ℕ
share node database k = ite (text_dec k.node node) (ite (text_dec k.database database) 1 0) 0

pub weight-le :
    (n d : Text) (k : PoolKey) (p q : Pool) → total q ≤ total p → weight n d k q ≤ weight n d k p
weight-le n d k p q h = ground arith

pub weight-grow :
    (n d : Text) (k : PoolKey) (p q : Pool)
    → total q ≤ total p + 1
    → weight n d k q ≤ weight n d k p + share n d k
weight-grow n d k p q h = ground arith

pub weight-shrink :
    (n d : Text) (k : PoolKey) (p q : Pool)
    → total q + 1 ≡ total p
    → weight n d k q + share n d k ≡ weight n d k p
weight-shrink n d k p q h = ground arith

weight-empty_pool : (n d : Text) (k : PoolKey) → weight n d k empty_pool ≡ 0
weight-empty_pool n d k = ground arith

weight_of-pool_at :
    (n d : Text) (k : PoolKey) (pools : Map PoolKey Pool)
    → Map.weight_of (weight n d) k (Map.lookup k pools) ≡ weight n d k (pool_at k pools)
unfolding pool_at
weight_of-pool_at n d k pools = ground (arith, weight-empty_pool n d k)

pub pool_at-some :
    (k : PoolKey) (p : Pool) (pools : Map PoolKey Pool)
    → Map.lookup k pools ≡ some p
    → pool_at k pools ≡ p
unfolding pool_at
pool_at-some k p pools e = rw (e, pool_at) refl

-- A pool that is replaced changes the total by the difference of the two pools.
pub node_total-insert :
    (n d : Text) (k : PoolKey) (q : Pool) (pools : Map PoolKey Pool)
    → node_total n d (Map.insert k q pools) + weight n d k (pool_at k pools)
      ≡ node_total n d pools + weight n d k q
unfolding node_total
node_total-insert n d k q pools =
    rw (sym (weight_of-pool_at n d k pools)) (total-insert (weight n d) k q pools)

pub node_total-insert-le :
    (n d : Text) (k : PoolKey) (q : Pool) (pools : Map PoolKey Pool)
    → total q ≤ total (pool_at k pools)
    → node_total n d (Map.insert k q pools) ≤ node_total n d pools
node_total-insert-le n d k q pools h =
    omega (arith, node_total-insert n d k q pools, weight-le n d k (pool_at k pools) q h)

pub length-insert-le : (a : ℕ) (xs : List ℕ) → length (Sets.insert a xs) ≤ length xs + 1
unfolding Sets.insert
length-insert-le a xs = ground arith

module _ (now idle_timeout max_lifetime : ℕ) where
  abbrev pub found_count : Option IdleConn → ℕ
  found_count none = 0
  found_count (some c) = 1

  pub length-pop_usable :
      (cs : List IdleConn)
      → length (pop_usable now idle_timeout max_lifetime cs).0
          + found_count (pop_usable now idle_timeout max_lifetime cs).1
        ≤ length cs
  unfolding pop_usable
  length-pop_usable [] = omega arith
  length-pop_usable (c ∷ cs) = ground (arith, length-pop_usable cs)
