-- ===== src/Pool/Tests.antt =====
-- Tests of the pool on a small configuration.
use mathlib.Core.Option.{some-injective}
use halephant.Prelude.Sets
use halephant.Prelude.Map
use halephant.Prelude.{
  ◌≡◌, ◌≤◌, refl, subst, sym, List, [], ◌∷◌, none, some, Text, ℕ, ℕ_discrete, text_dec, nat_eq,
  codes, false, true, Bool, arith, ite, All,
}
use halephant.Config.{find_pool}
use halephant.Config.Samples.{one_cluster, main_cluster, app_pool}
use halephant.Pool.Types.{Routing, PoolKey, key_dec, key_eq, ServerConn, IdleConn, Pool, node_total}
use halephant.Pool.Inner.{Inner, discard_internal}
use halephant.Pool.Inner.Wakes.{discarded, Frees-none}
use halephant.Pool.Limits.{resolve_limits, role_for_node}
use halephant.Pool.Checkout.{Pools, try_candidates}
use halephant.Pool.Checkout.Bounds.{IsWithin, try_candidates-IsWithin}
use halephant.Pool.Refill.{checkin, return_reset, scavenge_idle}
use halephant.Pool.Refill.Cycle.{IsActive, returned, return_reset-checkin, node_total-checkin}
use halephant.Pool.Refill.Floor.{IsScavenged, scavenge_idle-IsScavenged}
use halephant.Pool.Steps.{Holds, here, next, tries, checks_in, IsWithin-Reach}
use halephant.Pool.Waits.{Waits, wake_one_for_node, roles_for}
use halephant.Pool.Waits.Wake.{AllGone, queue_at, wake_one_for_node-none}
use halephant.Topology.{Topology}

abbrev node_a : Text
node_a = codes "a:5432"

abbrev shop : Text
shop = codes "shop"

abbrev topo : Topology
topo = (codes "main", record { primary = some node_a; replicas = []; unreachable = [] }) ∷ []

abbrev shop_key : PoolKey
shop_key = record { node = node_a; database = shop; user = codes "app" }

abbrev some_conn : ServerConn
some_conn = record { created_at = 0; socket = 7 }

abbrev always_alive : ServerConn → Bool
always_alive c = true

abbrev busy : Pool
busy = record { idle = []; active = 4 ∷ 5 ∷ []; resetting = [] }

abbrev full : Pools
full = (shop_key, busy) ∷ []

shop_limit :
    (k : PoolKey)
    → k.node ≡ node_a
    → k.database ≡ shop
    → (resolve_limits one_cluster topo k).pool_max ≤ 2
unfolding resolve_limits find_pool role_for_node halephant.Topology.primary Map.lookup text_dec
    ℕ_discrete
shop_limit k p q =
    subst
      (λ x.
        (resolve_limits one_cluster topo
          (record { node = x; database = k.database; user = k.user })).pool_max
        ≤ 2)
      (sym p)
      (subst
        (λ y.
          (resolve_limits one_cluster topo
            (record { node = node_a; database = y; user = k.user })).pool_max
          ≤ 2)
        (sym q) (omega arith))

full-IsWithin : IsWithin node_a shop 2 full
unfolding node_total text_dec ℕ_discrete Map.lookup
full-IsWithin = record { unique = (refl, tt); bound = omega arith }

try_candidates-IsWithin_example :
    IsWithin node_a shop 2
      (try_candidates one_cluster topo 1000 300000 3600000 (shop_key ∷ []) 6 0 full).0
try_candidates-IsWithin_example =
    try_candidates-IsWithin one_cluster topo 1000 300000 3600000 node_a shop 2 shop_limit
      (shop_key ∷ []) 6 0 full full-IsWithin

full-Holds : Holds shop_key full 4 (λ p. p.active)
unfolding Sets.contains Map.lookup key_dec text_dec ℕ_discrete
full-Holds = record {
  held = λ p e.
      subst (λ q. Sets.Distinct q.active × (Sets.contains 4 q.active ≡ true)) (some-injective _ _ e)
        ((refl, (refl, tt)), refl);
}

IsWithin-Reach_example :
    IsWithin node_a shop 2
      (try_candidates one_cluster topo 1000 300000 3600000
        (shop_key ∷ [])
        6
        0
        (checkin shop_key 4 full)).0
IsWithin-Reach_example =
    IsWithin-Reach always_alive one_cluster topo node_a shop 2 shop_limit full
      (try_candidates one_cluster topo 1000 300000 3600000 (shop_key ∷ []) 6 0
        (checkin shop_key 4 full)).0
      (next (next here (checks_in shop_key 4 full full-Holds))
        (tries 1000 300000 3600000 6 0 (shop_key ∷ []) (checkin shop_key 4 full)))
      full-IsWithin

busy-IsActive : IsActive 4 busy
unfolding Sets.contains ℕ_discrete
busy-IsActive = record { distinct = (refl, (refl, tt)); active = refl; not_resetting = refl }

full-lookup : Map.lookup shop_key full ≡ some busy
unfolding Map.lookup key_dec text_dec ℕ_discrete
full-lookup = refl

return_reset-checkin_example :
    Map.lookup shop_key (return_reset shop_key 4 some_conn 1000 (checkin shop_key 4 full)).0
    ≡ ite
        (key_dec shop_key shop_key)
        (some (returned 4 some_conn 1000 busy))
        (Map.lookup shop_key full)
return_reset-checkin_example =
    return_reset-checkin shop_key 4 some_conn 1000 busy full shop_key full-lookup busy-IsActive

node_total-checkin_example :
    node_total node_a shop (return_reset shop_key 4 some_conn 1000 (checkin shop_key 4 full)).0
    ≡ node_total node_a shop full
node_total-checkin_example =
    node_total-checkin shop_key 4 some_conn 1000 busy full node_a shop full-lookup busy-IsActive

abbrev two_idle : List IdleConn
two_idle =
    record { id = 1; conn = some_conn; idle_since = 0 }
    ∷ record { id = 2; conn = some_conn; idle_since = 10 }
    ∷ []

scavenge_idle-IsScavenged_example :
    IsScavenged always_alive one_cluster topo 400000 shop_key two_idle
      (scavenge_idle always_alive one_cluster topo 400000 shop_key two_idle)
scavenge_idle-IsScavenged_example =
    scavenge_idle-IsScavenged always_alive one_cluster topo 400000 shop_key two_idle

abbrev all_gone : ℕ → Bool
all_gone tx = false

abbrev one_gone : Waits
one_gone =
    (
      record { database = shop; role = Routing.primary },
      record { waiters = record { enqueued_at = 5; user = codes "app"; tx = 1 } ∷ [] },
    )
    ∷ []

shop-found : find_pool one_cluster shop ≡ some (codes "main", (main_cluster, app_pool))
unfolding find_pool Map.lookup ℕ_discrete text_dec
shop-found = refl

nobody_woken : (wake_one_for_node all_gone one_cluster topo shop_key one_gone).1 ≡ none
unfolding wake_one_for_node find_pool role_for_node halephant.Topology.primary Map.lookup ℕ_discrete
    text_dec halephant.Pool.Waits.wake_roles halephant.Pool.Waits.wake_role
    halephant.Pool.Waits.wait_key_dec halephant.Pool.Waits.routing_dec
    halephant.Pool.Waits.wake_queue Map.insert
nobody_woken = refl

wake_one_for_node-none_example :
    All
      (λ r. AllGone all_gone (queue_at shop r one_gone))
      (roles_for (role_for_node topo (codes "main") node_a))
wake_one_for_node-none_example =
    wake_one_for_node-none all_gone one_cluster topo shop_key one_gone (codes "main")
      (main_cluster, app_pool) shop-found nobody_woken

abbrev full_and_gone : Inner
full_and_gone = record { pools = full; waits = one_gone }

nobody_woken_by_discard :
    (discard_internal all_gone one_cluster topo shop_key 4 full_and_gone).1 ≡ none
unfolding discard_internal halephant.Pool.Inner.wake_one
nobody_woken_by_discard = nobody_woken

Frees-none_example :
    All
      (λ r. AllGone all_gone (queue_at shop r one_gone))
      (roles_for (role_for_node topo (codes "main") node_a))
Frees-none_example =
    Frees-none all_gone one_cluster topo shop_key
      (discard_internal all_gone one_cluster topo shop_key 4) full_and_gone (codes "main")
      (main_cluster, app_pool) (discarded 4) shop-found nobody_woken_by_discard
