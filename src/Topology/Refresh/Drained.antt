-- ===== src/Topology/Refresh/Drained.antt =====
-- A node that stops being the primary is drained.
use mathlib.Core.Option.{some-injective}
use halephant.Prelude.Sets
use halephant.Prelude.Sets.{contains-append, contains-cons}
use halephant.Prelude.Map
use halephant.Prelude.Map.{lookup-insert}
use halephant.Prelude.{
  ◌≡◌, ap, if_neg, refl, sym, ◌∙◌, true, false, List, ◌∷◌, ◌++◌, Option, none, some, Text, text_eq,
  text_dec, if_pos, arith, Bool-cases, inl, inr,
}
use halephant.Topology.{ClusterTopology, Topology}
use halephant.Topology.Refresh.{
  found_nothing, node_list, same_primary, role_changes, newly_unreachable, refresh_cluster,
}

contains-head : (t : Text) (ts : List Text) → Sets.contains t (t ∷ ts) ≡ true
contains-head t ts = contains-cons t t ts ∙ if_pos (text_dec t t) refl _ _

differs : (old : Text) (o : Option Text) → ¬ (o ≡ some old) → same_primary (some old) o ≡ false
differs old none h = refl
differs old (some x) h = if_neg (text_dec old x) (λ e. h (ap some (sym e))) _ _

role_changes-old :
    (prev topo : ClusterTopology) (old : Text)
    → prev.primary ≡ some old
    → ¬ (topo.primary ≡ some old)
    → Sets.contains old (role_changes prev topo) ≡ true
unfolding role_changes
role_changes-old prev topo old e h =
    rw (e, differs old topo.primary h, role_changes) (contains-head old (node_list topo.primary))

contains-left :
    (t : Text) (xs ys : List Text) → Sets.contains t xs ≡ true → Sets.contains t (xs ++ ys) ≡ true
contains-left t xs ys h = ground (arith, contains-append t xs ys)

contains-right :
    (t : Text) (xs ys : List Text) → Sets.contains t ys ≡ true → Sets.contains t (xs ++ ys) ≡ true
contains-right t xs ys h = ground (arith, contains-append t xs ys, Bool-cases (Sets.contains t xs))

-- What one cluster's refresh leaves, where there was something before.
refresh_cluster-kept :
    (name : Text) (topo prev : ClusterTopology) (state : Topology) (changed : List Text)
    → Map.lookup name state ≡ some prev
    → found_nothing topo ≡ true
    → refresh_cluster name topo (state, changed) ≡ (state, changed)
unfolding refresh_cluster
refresh_cluster-kept name topo prev state changed e f = rw (e, f, refresh_cluster) refl

refresh_cluster-new :
    (name : Text) (topo prev : ClusterTopology) (state : Topology) (changed : List Text)
    → Map.lookup name state ≡ some prev
    → found_nothing topo ≡ false
    → refresh_cluster name topo (state, changed) ≡ (
      Map.insert name topo state,
      changed ++ (role_changes prev topo ++ newly_unreachable prev.unreachable topo.unreachable),
    )
unfolding refresh_cluster
refresh_cluster-new name topo prev state changed e f = rw (e, f, refresh_cluster) refl

-- A node that was the primary of a cluster and is not after the cluster was refreshed is among the
-- nodes to drain.
pub refresh_cluster-drained :
    (name old : Text) (topo prev after : ClusterTopology) (state : Topology) (changed : List Text)
    → Map.lookup name state ≡ some prev
    → prev.primary ≡ some old
    → Map.lookup name (refresh_cluster name topo (state, changed)).0 ≡ some after
    → ¬ (after.primary ≡ some old)
    → Sets.contains old (refresh_cluster name topo (state, changed)).1 ≡ true
refresh_cluster-drained name old topo prev after state changed e p a h =
    elim (Bool-cases (found_nothing topo)) [
      | inl f ↦
          let kept =
            ap (λ s. Map.lookup name s.0) (refresh_cluster-kept name topo prev state changed e f) in
          let same = some-injective _ _ (sym e ∙ sym kept ∙ a) in
          absurd (h (ap (λ t. t.primary) (sym same) ∙ p))
      | inr f ↦
          let new = refresh_cluster-new name topo prev state changed e f in
          let found = lookup-insert name name topo state ∙ if_pos (text_dec name name) refl _ _ in
          let same = some-injective _ _ (sym found ∙ sym (ap (λ s. Map.lookup name s.0) new) ∙ a) in
          ap (λ s. Sets.contains old s.1) new
          ∙ contains-right old changed _ (
              contains-left old (role_changes prev topo) _
                (role_changes-old prev topo old p (λ q. h (ap (λ t. t.primary) (sym same) ∙ q))))
    ]
