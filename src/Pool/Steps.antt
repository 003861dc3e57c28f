-- ===== src/Pool/Steps.antt =====
-- The operations on the pools as steps, in any order: all but a refill keep every limit.
use halephant.Prelude.Sets
use halephant.Prelude.Sets.{Distinct, length-remove, length-remove-le}
use halephant.Prelude.Map
use halephant.Prelude.Map.{Map, Unique}
use halephant.Prelude.{
  ℕ, ◌≤◌, ◌≡◌, ap, Bool, true, List, [], ◌∷◌, none, some, Text, nat_eq, arith, Option-cases,
  length-append, length-retain-le, inl, inr,
}
use halephant.Config.Types.{Config}
use halephant.Pool.Types.{ConnId, PoolKey, key_eq, ServerConn, IdleConn, Pool, total, node_total}
use halephant.Pool.Limits.{resolve_limits}
use halephant.Pool.Totals.{weight-le, pool_at-some, length-insert-le}
use halephant.Pool.Checkout.{Pools, try_candidates, discard}
use halephant.Pool.Checkout.Bounds.{IsWithin, replaced, try_candidates-IsWithin}
use halephant.Pool.Refill.{
  modify, checkin, return_reset, drop_reset, is_healthy, is_stale, scavenge_idle, scavenge,
  drain_node, drain_all,
}
use halephant.Pool.Refill.Floor.{length-drop_stale-le}
use halephant.Topology.{Topology}

-- The pools of two maps with the same keys, none of which grew.
pub data Shrunk : Pools → Pools → Type 0 where
  done : Shrunk [] []
  pool :
      (k : PoolKey) (p q : Pool) (ps qs : Pools)
      → total q ≤ total p
      → Shrunk ps qs
      → Shrunk ((k, p) ∷ ps) ((k, q) ∷ qs)

Shrunk-absent :
    (k : PoolKey) (ps qs : Pools) → Shrunk ps qs → Map.lookup k ps ≡ none → Map.lookup k qs ≡ none
unfolding Map.lookup
Shrunk-absent k _ _ done h = h
Shrunk-absent k _ _ (pool j p q ps qs e s) h = ground (arith, Shrunk-absent k ps qs s)

Shrunk-Unique : (ps qs : Pools) → Shrunk ps qs → Unique ps → Unique qs
Shrunk-Unique _ _ done u = tt
Shrunk-Unique _ _ (pool k p q ps qs e s) u =
    (Shrunk-absent k ps qs s u.0, Shrunk-Unique ps qs s u.1)

Shrunk-node_total :
    (n d : Text) (ps qs : Pools) → Shrunk ps qs → node_total n d qs ≤ node_total n d ps
unfolding node_total
Shrunk-node_total n d _ _ done = omega arith
Shrunk-node_total n d _ _ (pool k p q ps qs e s) =
    omega (arith, weight-le n d k p q e, Shrunk-node_total n d ps qs s)

Shrunk-IsWithin :
    (n d : Text) (b : ℕ) (ps qs : Pools) → Shrunk ps qs → IsWithin n d b ps → IsWithin n d b qs
Shrunk-IsWithin n d b ps qs s w = record {
  unique = Shrunk-Unique ps qs s w.unique;
  bound = let h = w.bound in omega (arith, Shrunk-node_total n d ps qs s);
}

scavenge-Shrunk :
    (is_alive : ServerConn → Bool) (cfg : Config) (topo : Topology) (now : ℕ) (ps : Pools)
    → Shrunk ps (scavenge is_alive cfg topo now ps)
unfolding scavenge scavenge_idle
scavenge-Shrunk is_alive cfg topo now [] = done
scavenge-Shrunk is_alive cfg topo now ((k, p) ∷ ps) =
    pool k p _ ps _
      (omega (
        arith,
        length-drop_stale-le (is_stale is_alive cfg topo now k) _ _,
        length-retain-le (is_healthy is_alive cfg topo now k) p.idle,
      ))
      (scavenge-Shrunk is_alive cfg topo now ps)

drain_node-Shrunk : (node : Text) (ps : Pools) → Shrunk ps (drain_node node ps)
unfolding drain_node
drain_node-Shrunk node [] = done
drain_node-Shrunk node ((k, p) ∷ ps) = pool k p _ ps _ (ground arith) (drain_node-Shrunk node ps)

drain_all-Shrunk : (ps : Pools) → Shrunk ps (drain_all ps)
unfolding drain_all
drain_all-Shrunk [] = done
drain_all-Shrunk ((k, p) ∷ ps) = pool k p _ ps _ (omega arith) (drain_all-Shrunk ps)

modify-IsWithin :
    (n d : Text) (b : ℕ) (key : PoolKey) (f : Pool → Pool) (pools : Pools)
    → ((p : Pool) → Map.lookup key pools ≡ some p → total (f p) ≤ total p)
    → IsWithin n d b pools
    → IsWithin n d b (modify key f pools)
unfolding modify
modify-IsWithin n d b key f pools h w = elim (Option-cases (Map.lookup key pools)) [
  | inl e ↦ rw (e, modify) w
  | inr (p, e) ↦
      rw (e, modify)
        (replaced n d b key (f p) pools w (
          let g = h p e in
          let same = ap total (pool_at-some key p pools e) in omega (arith, g, same)))
]

discard-IsWithin :
    (n d : Text) (b : ℕ) (key : PoolKey) (id : ConnId) (pools : Pools)
    → IsWithin n d b pools
    → IsWithin n d b (discard key id pools)
unfolding discard
discard-IsWithin n d b key id pools w = elim (Option-cases (Map.lookup key pools)) [
  | inl e ↦ rw (e, discard) w
  | inr (p, e) ↦
      rw (e, discard)
        (replaced n d b key (record p { active = Sets.remove id p.active }) pools w
          (omega (arith, length-remove-le id p.active, ap total (pool_at-some key p pools e))))
]

-- A connection of a pool that its guard owns: in use, or under reset.
pub record Holds (key : PoolKey) (pools : Pools) (id : ConnId) (part : Pool → List ConnId)
    : Type 0 where
  pub held :
      (p : Pool)
      → Map.lookup key pools ≡ some p
      → Distinct (part p) × (Sets.contains id (part p) ≡ true)

checkin-IsWithin :
    (n d : Text) (b : ℕ) (key : PoolKey) (id : ConnId) (pools : Pools)
    → Holds key pools id (λ p. p.active)
    → IsWithin n d b pools
    → IsWithin n d b (checkin key id pools)
unfolding checkin
checkin-IsWithin n d b key id pools o w =
    modify-IsWithin n d b key _ pools
      (λ p e.
        let (u, h) = o.held p e in
        omega (arith, length-remove id p.active u h, length-insert-le id p.resetting))
      w

return_reset-IsWithin :
    (n d : Text) (b : ℕ) (key : PoolKey) (id : ConnId) (conn : ServerConn) (now : ℕ) (pools : Pools)
    → Holds key pools id (λ p. p.resetting)
    → IsWithin n d b pools
    → IsWithin n d b (return_reset key id conn now pools).0
unfolding return_reset
return_reset-IsWithin n d b key id conn now pools o w = elim (Option-cases (Map.lookup key pools)) [
  | inl e ↦ rw (e, return_reset) w
  | inr (p, e) ↦
      let (u, h) = o.held p e in
      let c : IdleConn = record { id = id; conn = conn; idle_since = now } in
      rw (e, return_reset)
        (replaced n d b key _ pools w (
          omega (
            arith,
            length-remove id p.resetting u h,
            length-append p.idle (c ∷ []),
            ap total (pool_at-some key p pools e),
          )))
]

drop_reset-IsWithin :
    (n d : Text) (b : ℕ) (key : PoolKey) (id : ConnId) (pools : Pools)
    → IsWithin n d b pools
    → IsWithin n d b (drop_reset key id pools)
unfolding drop_reset
drop_reset-IsWithin n d b key id pools w =
    modify-IsWithin n d b key _ pools (λ p e. omega (arith, length-remove-le id p.resetting)) w

module _ (is_alive : ServerConn → Bool) (cfg : Config) (topo : Topology) where
  -- The operations of the tasks that share the pools, at any time and in any order. A check-in owns
  -- a connection in use, the end of a reset one under reset.
  pub data Step : Pools → Pools → Type 0 where
    tries :
        (now idle_timeout max_lifetime free rr : ℕ) (candidates : List PoolKey) (pools : Pools)
        → Step pools
            (try_candidates cfg topo now idle_timeout max_lifetime candidates free rr pools).0
    discards : (key : PoolKey) (id : ConnId) (pools : Pools) → Step pools (discard key id pools)
    checks_in :
        (key : PoolKey) (id : ConnId) (pools : Pools)
        → Holds key pools id (λ p. p.active)
        → Step pools (checkin key id pools)
    returns :
        (key : PoolKey) (id : ConnId) (conn : ServerConn) (now : ℕ) (pools : Pools)
        → Holds key pools id (λ p. p.resetting)
        → Step pools (return_reset key id conn now pools).0
    fails_reset :
        (key : PoolKey) (id : ConnId) (pools : Pools) → Step pools (drop_reset key id pools)
    scavenges : (now : ℕ) (pools : Pools) → Step pools (scavenge is_alive cfg topo now pools)
    drains : (node : Text) (pools : Pools) → Step pools (drain_node node pools)
    drains_all : (pools : Pools) → Step pools (drain_all pools)

  pub data Reach (pools : Pools) : Pools → Type 0 where
    here : Reach pools pools
    next : {ps qs : Pools} → Reach pools ps → Step ps qs → Reach pools qs

  module _ (n d : Text) (b : ℕ)
      (limit : (k : PoolKey)
        → k.node ≡ n
        → k.database ≡ d
        → (resolve_limits cfg topo k).pool_max ≤ b) where
    Step-IsWithin : (ps qs : Pools) → Step ps qs → IsWithin n d b ps → IsWithin n d b qs
    Step-IsWithin _ _ (tries now i m free rr cs ps) w =
        try_candidates-IsWithin cfg topo now i m n d b limit cs free rr ps w
    Step-IsWithin _ _ (discards key id ps) w = discard-IsWithin n d b key id ps w
    Step-IsWithin _ _ (checks_in key id ps o) w = checkin-IsWithin n d b key id ps o w
    Step-IsWithin _ _ (returns key id conn now ps o) w =
        return_reset-IsWithin n d b key id conn now ps o w
    Step-IsWithin _ _ (fails_reset key id ps) w = drop_reset-IsWithin n d b key id ps w
    Step-IsWithin _ _ (scavenges now ps) w =
        Shrunk-IsWithin n d b ps _ (scavenge-Shrunk is_alive cfg topo now ps) w
    Step-IsWithin _ _ (drains node ps) w = Shrunk-IsWithin n d b ps _ (drain_node-Shrunk node ps) w
    Step-IsWithin _ _ (drains_all ps) w = Shrunk-IsWithin n d b ps _ (drain_all-Shrunk ps) w

    -- From pools within a bound that no limit of the node and database exceeds, any sequence of
    -- checkouts, discards, check-ins and ends of a reset of connections that their guards hold,
    -- scavenges and drains leaves at most that many connections of the node and database.
    pub IsWithin-Reach : (ps qs : Pools) → Reach ps qs → IsWithin n d b ps → IsWithin n d b qs
    IsWithin-Reach ps _ here w = w
    IsWithin-Reach ps qs (next r s) w = Step-IsWithin _ qs s (IsWithin-Reach ps _ r w)
