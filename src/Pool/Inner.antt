-- ===== src/Pool/Inner.antt =====
-- `Inner` of crates/halephant-core/src/pool/types.rs, and the operations on pools and wait queues
-- together: each changes the pools first and then wakes. The waiters that are woken come last.
pub mod Wakes
use halephant.Prelude.{
  ℕ, zero, suc, ◌-◌, Bool, true, false, List, [], ◌∷◌, Option, none, Text, length, if◌then◌else◌,
}
use halephant.Config.Types.{Config}
use halephant.Pool.Types.{ConnId, PoolKey, ServerConn}
use halephant.Pool.Checkout.{Pools, discard}
use halephant.Pool.Refill.{
  return_reset, drop_reset, add_opened, scavenge_idle, scavenge, drain_node,
}
use halephant.Pool.Waits.{Waiter, Waits, wake_one_for_node, wake_all_waiters}
use halephant.Topology.{Topology}

pub record Inner : Type 0 where
  pub pools : Pools
  pub waits : Waits

-- `waits.retain(|_, q| !q.waiters.is_empty())`.
unfoldable pub drop_empty : Waits → Waits
drop_empty [] = []
drop_empty ((key, q) ∷ rest) =
    let later = drop_empty rest in elim q.waiters [ [] ↦ later | ◌∷◌ w ws ↦ (key, q) ∷ later ]

-- The keys that a scavenge freed connections of, with their numbers.
module _ (is_alive : ServerConn → Bool) (cfg : Config) (topo : Topology) (now : ℕ) where
  unfoldable pub freed : Pools → List (PoolKey × ℕ)
  freed [] = []
  freed ((key, p) ∷ rest) =
      (key, length p.idle - length (scavenge_idle is_alive cfg topo now key p.idle)) ∷ freed rest

module _ (send_ok : ℕ → Bool) (cfg : Config) (topo : Topology) where
  unfoldable pub wake_one : PoolKey → Inner → Inner × Option Waiter
  wake_one key inner =
      let (waits, woken) = wake_one_for_node send_ok cfg topo key inner.waits in
      (record inner { waits = waits }, woken)

  -- `for _ in 0..*n`.
  unfoldable pub wake_times : ℕ → PoolKey → Waits → Waits
  wake_times zero key waits = waits
  wake_times (suc n) key waits = wake_times n key (wake_one_for_node send_ok cfg topo key waits).0

  unfoldable pub wake_freed : List (PoolKey × ℕ) → Waits → Waits
  wake_freed [] waits = waits
  wake_freed ((key, n) ∷ rest) waits = wake_freed rest (wake_times n key waits)

  unfoldable pub discard_internal : PoolKey → ConnId → Inner → Inner × Option Waiter
  discard_internal key id inner = wake_one key (record inner { pools = discard key id inner.pools })

  -- Both ends of `reset_and_return`: a reset that succeeded wakes only if a pool took the
  -- connection.
  unfoldable pub reset_and_return :
      PoolKey → ConnId → ServerConn → ℕ → Bool → Inner → Inner × Option Waiter
  reset_and_return key id conn now true inner =
      let (pools, returned) = return_reset key id conn now inner.pools in
      let after : Inner = record inner { pools = pools } in
      let woken = wake_one key after in if returned then woken else (after, none)
  reset_and_return key id conn now false inner =
      wake_one key (record inner { pools = drop_reset key id inner.pools })

  unfoldable pub open_idle : PoolKey → ConnId → ServerConn → ℕ → Inner → Inner × Option Waiter
  open_idle key id conn now inner =
      wake_one key (record inner { pools = add_opened key id conn now inner.pools })

  unfoldable pub run_scavenge : (ServerConn → Bool) → ℕ → Inner → Inner
  run_scavenge is_alive now inner = record {
    pools = scavenge is_alive cfg topo now inner.pools;
    waits = wake_freed (freed is_alive cfg topo now inner.pools) (drop_empty inner.waits);
  }

unfoldable pub drain : Text → Inner → Inner × List Waiter
drain node inner =
    let (waits, woken) = wake_all_waiters inner.waits in
    (record { pools = drain_node node inner.pools; waits = waits }, woken)
