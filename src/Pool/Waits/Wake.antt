-- ===== src/Pool/Waits/Wake.antt =====
-- No slot is lost while a waiter that could use it still listens.
use halephant.Prelude.Map
use halephant.Prelude.Map.{lookup-insert}
use halephant.Prelude.{
  ℕ, ◌≡◌, refl, sym, ◌∙◌, ap, subst, Bool, false, List, [], ◌∷◌, none, some, Text, if_neg, All,
  All-map, Bool-cases, Option-cases, arith, inl, inr,
}
use halephant.Config.{find_pool}
use halephant.Config.Types.{Config, ClusterConfig, PoolConfig}
use halephant.Pool.Types.{Routing, PoolKey}
use halephant.Pool.Limits.{role_for_node}
use halephant.Pool.Waits.{
  WaitKey, routing_dec, wait_key_dec, wait_key_eq, Waiter, WaitQueue, Waits, queued, roles_for,
  wake_queue, wake_role, wake_roles, wake_one_for_node,
}
use halephant.Topology.{Topology}

-- The waiters of a database and a role.
abbrev pub queue_at : Text → Routing → Waits → List Waiter
queue_at database role waits =
    queued (Map.lookup (record { database = database; role = role }) waits)

module _ (send_ok : ℕ → Bool) where
  abbrev pub AllGone : List Waiter → Type 0
  AllGone = All (λ w. send_ok w.tx ≡ false)

  wake_queue-none :
      (q : List Waiter)
      → (wake_queue send_ok q).1 ≡ none
      → AllGone q × ((wake_queue send_ok q).0 ≡ [])
  unfolding wake_queue
  wake_queue-none [] e = (tt, refl)
  wake_queue-none (w ∷ rest) e = elim (Bool-cases (send_ok w.tx)) [
    | inl h ↦ absurd (ground arith)
    | inr h ↦
        let (a, b) = wake_queue-none rest (sym (rw (h, wake_queue) refl) ∙ e) in
        ((h, a), rw (h, wake_queue) b)
  ]

  after-wake_role :
      (database : Text) (r : Routing) (waits : Waits) (q : WaitQueue)
      → Map.lookup (record { database = database; role = r }) waits ≡ some q
      → (wake_role send_ok database r waits ≡ (
        Map.insert
            (record { database = database; role = r })
            (record { waiters = (wake_queue send_ok q.waiters).0 })
            waits,
        (wake_queue send_ok q.waiters).1,
      ))
  unfolding wake_role
  after-wake_role database r waits q e = rw (e, wake_role) refl

  wake_role-none :
      (database : Text) (r s : Routing) (waits : Waits)
      → (wake_role send_ok database r waits).1 ≡ none
      → AllGone (queue_at database s (wake_role send_ok database r waits).0)
      → AllGone (queue_at database s waits)
  unfolding wake_role
  wake_role-none database r s waits e h =
      elim (Option-cases (Map.lookup (record { database = database; role = r }) waits)) [
        | inl a ↦ rw (a, wake_role) at h
        | inr (q, a) ↦
            let gone =
              (wake_queue-none q.waiters
                (ap (λ x. x.1) (sym (after-wake_role database r waits q a)) ∙ e)).0 in
            let key : WaitKey = record { database = database; role = r } in
            let key' : WaitKey = record { database = database; role = s } in
            elim (routing_dec r s) [
              | yes p ↦ subst (λ x. AllGone (queue_at database x waits)) p (rw a gone)
              | no n ↦
                  let same =
                    lookup-insert key' key (record { waiters = (wake_queue send_ok q.waiters).0 })
                      waits
                    ∙ if_neg (wait_key_dec key key') (λ k. n (ap (λ x. x.role) k)) _ _ in
                  subst (λ o. AllGone (queued o)) same
                    (rw (after-wake_role database r waits q a) at h)
            ]
      ]

  wake_role-gone :
      (database : Text) (r : Routing) (waits : Waits)
      → (wake_role send_ok database r waits).1 ≡ none
      → AllGone (queue_at database r waits)
  wake_role-gone database r waits e =
      elim (Option-cases (Map.lookup (record { database = database; role = r }) waits)) [
        | inl a ↦ rw a tt
        | inr (q, a) ↦
            rw a
              (wake_queue-none q.waiters
                (ap (λ x. x.1) (sym (after-wake_role database r waits q a)) ∙ e)).0
      ]

  wake_roles-none :
      (database : Text) (roles : List Routing) (waits : Waits)
      → (wake_roles send_ok database roles waits).1 ≡ none
      → All (λ r. AllGone (queue_at database r waits)) roles
  unfolding wake_roles
  wake_roles-none database [] waits e = tt
  wake_roles-none database (r ∷ roles) waits e =
      elim (Option-cases (wake_role send_ok database r waits).1) [
        | inr (w, a) ↦ absurd (ground arith)
        | inl a ↦ (
          wake_role-gone database r waits a,
          All-map (λ s. wake_role-none database r s waits a) roles
              (wake_roles-none database roles (wake_role send_ok database r waits).0
                (sym (rw (a, wake_roles) refl) ∙ e)),
        )
      ]

  -- If a slot freed on a node of a configured database wakes nobody, then in every queue that could
  -- use it, of both roles for a primary and of the replica role for a replica, nobody listens.
  pub wake_one_for_node-none :
      (cfg : Config) (topo : Topology) (key : PoolKey) (waits : Waits) (name : Text)
      (found : ClusterConfig × PoolConfig)
      → find_pool cfg key.database ≡ some (name, found)
      → (wake_one_for_node send_ok cfg topo key waits).1 ≡ none
      → All
          (λ r. AllGone (queue_at key.database r waits))
          (roles_for (role_for_node topo name key.node))
  unfolding wake_one_for_node
  wake_one_for_node-none cfg topo key waits name found f e =
      wake_roles-none key.database _ waits (sym (rw (f, wake_one_for_node) refl) ∙ e)
