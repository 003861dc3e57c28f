-- ===== src/Pool/Inner/Wakes.antt =====
-- Every operation that frees a slot of a node or brings it an idle connection reaches a waiter, if
-- one listens.
use halephant.Prelude.{◌≡◌, Bool, false, Option, none, some, Text, ℕ, All}
use halephant.Config.{find_pool}
use halephant.Config.Types.{Config, ClusterConfig, PoolConfig}
use halephant.Pool.Inner.{Inner, wake_one, discard_internal, reset_and_return, open_idle}
use halephant.Pool.Limits.{role_for_node}
use halephant.Pool.Types.{ConnId, PoolKey, ServerConn}
use halephant.Pool.Waits.{Waiter, roles_for}
use halephant.Pool.Waits.Wake.{AllGone, queue_at, wake_one_for_node-none}
use halephant.Topology.{Topology}

module _ (send_ok : ℕ → Bool) (cfg : Config) (topo : Topology) where
  -- A connection discarded, one whose reset failed, and one opened by a refill.
  pub data Frees (key : PoolKey) : (Inner → Inner × Option Waiter) → Type 0 where
    discarded : (id : ConnId) → Frees key (discard_internal send_ok cfg topo key id)
    reset_failed :
        (id : ConnId) (conn : ServerConn) (now : ℕ)
        → Frees key (reset_and_return send_ok cfg topo key id conn now false)
    opened :
        (id : ConnId) (conn : ServerConn) (now : ℕ)
        → Frees key (open_idle send_ok cfg topo key id conn now)

  -- If a connection of a configured database is discarded, fails its reset or was opened by a refill,
  -- and nobody is woken, then nobody listened in any queue that could use it.
  pub Frees-none :
      (key : PoolKey) (f : Inner → Inner × Option Waiter) (inner : Inner) (name : Text)
      (found : ClusterConfig × PoolConfig)
      → Frees key f
      → find_pool cfg key.database ≡ some (name, found)
      → (f inner).1 ≡ none
      → All
          (λ r. AllGone send_ok (queue_at key.database r inner.waits))
          (roles_for (role_for_node topo name key.node))
  unfolding discard_internal reset_and_return open_idle wake_one
  Frees-none key f inner name found (discarded id) p e =
      wake_one_for_node-none send_ok cfg topo key inner.waits name found p e
  Frees-none key f inner name found (reset_failed id conn now) p e =
      wake_one_for_node-none send_ok cfg topo key inner.waits name found p e
  Frees-none key f inner name found (opened id conn now) p e =
      wake_one_for_node-none send_ok cfg topo key inner.waits name found p e
