-- ===== src/Pool/Waits.antt =====
-- crates/halephant-core/src/pool/wait.rs and the queues of pool/types.rs. Whether `tx.send(())`
-- succeeds is tokio's: a parameter, by the sender's number.
pub mod Wake
use halephant.Prelude.Map
use halephant.Prelude.Map.{Map}
use halephant.Prelude.{
  ℕ, ◌++◌, ◌≡◌, refl, ap, Bool, true, false, List, [], ◌∷◌, Option, none, some, Text, text_dec,
  Equality, if◌then◌else◌,
}
use halephant.Config.{find_pool}
use halephant.Config.Types.{Config}
use halephant.Pool.Types.{Routing, NodeRole, PoolKey}
use halephant.Pool.Limits.{role_for_node}
use halephant.Topology.{Topology}

pub record WaitKey : Type 0 where
  pub database : Text
  pub role : Routing

pub primary≢replica : ¬ (Routing.primary ≡ Routing.replica)
primary≢replica e = cc

pub replica≢primary : ¬ (Routing.replica ≡ Routing.primary)
replica≢primary e = cc

unfoldable pub routing_dec : (r s : Routing) → Dec (r ≡ s)
routing_dec Routing.primary Routing.primary = yes refl
routing_dec Routing.primary Routing.replica = no primary≢replica
routing_dec Routing.replica Routing.primary = no replica≢primary
routing_dec Routing.replica Routing.replica = yes refl

pub same_wait_key : (j k : WaitKey) → j.database ≡ k.database → j.role ≡ k.role → j ≡ k
same_wait_key j k p q = cc

unfoldable pub wait_key_dec : (j k : WaitKey) → Dec (j ≡ k)
wait_key_dec j k = elim (text_dec j.database k.database) [
  | no n ↦ no (λ e. n (ap (λ x. x.database) e))
  | yes p ↦ elim (routing_dec j.role k.role) [
    | no n ↦ no (λ e. n (ap (λ x. x.role) e))
    | yes q ↦ yes (same_wait_key j k p q)
  ]
]

instance abbrev pub wait_key_eq : Equality WaitKey
wait_key_eq = record { dec = wait_key_dec }

pub record Waiter : Type 0 where
  pub enqueued_at : ℕ
  pub user : Text
  pub tx : ℕ

pub record WaitQueue : Type 0 where
  pub waiters : List Waiter

abbrev pub Waits : Type 0
Waits = Map WaitKey WaitQueue

abbrev pub queued : Option WaitQueue → List Waiter
queued none = []
queued (some q) = q.waiters

-- `entry(wait_key).or_default()` and `push_back`.
unfoldable pub enqueue : WaitKey → Waiter → Waits → Waits
enqueue key w waits =
    Map.insert key (record { waiters = queued (Map.lookup key waits) ++ w ∷ [] }) waits

-- Every waiter that `wake_all_waiters` signals; no queue is left.
unfoldable pub wake_all_waiters : Waits → Waits × List Waiter
wake_all_waiters [] = ([], [])
wake_all_waiters ((_, q) ∷ rest) =
    let (left, woken) = wake_all_waiters rest in (left, q.waiters ++ woken)

-- The roles whose waiters can use a slot on a node, in the order they are tried.
abbrev pub roles_for : NodeRole → List Routing
roles_for NodeRole.primary = Routing.primary ∷ Routing.replica ∷ []
roles_for NodeRole.replica = Routing.replica ∷ []
roles_for NodeRole.unknown = []

module _ (send_ok : ℕ → Bool) where
  -- Pops waiters up to the first one that hears.
  unfoldable pub wake_queue : List Waiter → List Waiter × Option Waiter
  wake_queue [] = ([], none)
  wake_queue (w ∷ rest) =
      let later = wake_queue rest in if send_ok w.tx then (rest, some w) else later

  unfoldable pub wake_role : Text → Routing → Waits → Waits × Option Waiter
  wake_role database role waits =
      let key : WaitKey = record { database = database; role = role } in
      elim (Map.lookup key waits) [
        | none ↦ (waits, none)
        | some q ↦
            let (left, woken) = wake_queue q.waiters in
            (Map.insert key (record { waiters = left }) waits, woken)
      ]

  unfoldable pub wake_roles : Text → List Routing → Waits → Waits × Option Waiter
  wake_roles database [] waits = (waits, none)
  wake_roles database (role ∷ roles) waits =
      let (left, woken) = wake_role database role waits in
      let later = wake_roles database roles left in
      elim woken [ some w ↦ (left, some w) | none ↦ later ]

  unfoldable pub wake_one_for_node : Config → Topology → PoolKey → Waits → Waits × Option Waiter
  wake_one_for_node cfg topo key waits = elim (find_pool cfg key.database) [
    | none ↦ (waits, none)
    | some (cluster_name, _) ↦
        wake_roles key.database (roles_for (role_for_node topo cluster_name key.node)) waits
  ]
