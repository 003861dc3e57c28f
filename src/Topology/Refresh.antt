-- ===== src/Topology/Refresh.antt =====
-- `refresh` and `discover_cluster` of crates/halephant-core/src/topology/mod.rs. What the probes of
-- a cluster's nodes find, in the order they complete, is a parameter; a probe whose task panics has
-- no entry.
pub mod Drained
use halephant.Prelude.Sets
use halephant.Prelude.Map
use halephant.Prelude.Map.{Map}
use halephant.Prelude.{
  ℕ, ◌++◌, ◌==◌, Bool, true, false, not, List, [], ◌∷◌, Option, none, some, Text, text_eq, text_dec,
  ltb, ite, if◌then◌else◌,
}
use halephant.Config.Types.{ClusterConfig, Config}
use halephant.Topology.{ClusterTopology, Topology}

-- `Ok(Ok(true))`, `Ok(Ok(false))`, and an error or a timeout.
pub data Probe : Type 0 where
  replica primary failed : Probe

-- `sort` on strings.
text_le : Text → Text → Bool
text_le [] ys = true
text_le (x ∷ xs) [] = false
text_le (x ∷ xs) (y ∷ ys) =
    let later = text_le xs ys in if ltb x y then true else if x == y then later else false

place : Text → List Text → List Text
unfolding text_le
place t [] = t ∷ []
place t (x ∷ xs) = let later = place t xs in if text_le t x then t ∷ x ∷ xs else x ∷ later

sort : List Text → List Text
unfolding place
sort [] = []
sort (t ∷ ts) = place t (sort ts)

collect : List (Text × Probe) → ClusterTopology → ClusterTopology
collect [] topo = topo
collect ((node, Probe.replica) ∷ rest) topo =
    collect rest (record topo { replicas = topo.replicas ++ node ∷ [] })
collect ((node, Probe.primary) ∷ rest) topo = collect rest (record topo { primary = some node })
collect ((node, Probe.failed) ∷ rest) topo =
    collect rest (record topo { unreachable = topo.unreachable ++ node ∷ [] })

unfoldable pub discover_cluster : List (Text × Probe) → ClusterTopology
unfolding collect sort
discover_cluster probes =
    let topo = collect probes (record { primary = none; replicas = []; unreachable = [] }) in
    record topo { replicas = sort topo.replicas; unreachable = sort topo.unreachable }

-- `topo.primary.is_none() && topo.replicas.is_empty()`.
abbrev pub found_nothing : ClusterTopology → Bool
found_nothing topo = elim topo.primary [
  | some _ ↦ false
  | none ↦ elim topo.replicas [ [] ↦ true | ◌∷◌ x xs ↦ false ]
]

abbrev pub node_list : Option Text → List Text
node_list none = []
node_list (some node) = node ∷ []

abbrev pub same_primary : Option Text → Option Text → Bool
same_primary none none = true
same_primary none (some b) = false
same_primary (some a) none = false
same_primary (some a) (some b) = ite (text_dec a b) true false

-- The nodes to drain where the primary differs, and those that were reachable before.
unfoldable pub role_changes : ClusterTopology → ClusterTopology → List Text
role_changes prev topo =
    if same_primary prev.primary topo.primary
    then []
    else node_list prev.primary ++ node_list topo.primary

unfoldable pub newly_unreachable : List Text → List Text → List Text
newly_unreachable before [] = []
newly_unreachable before (node ∷ nodes) =
    let later = newly_unreachable before nodes in
    if Sets.contains node before then later else node ∷ later

-- The loop's body, on what was found of one cluster.
unfoldable pub refresh_cluster :
    Text → ClusterTopology → Topology × List Text → Topology × List Text
refresh_cluster name topo (state, changed) = elim (Map.lookup name state) [
  | none ↦ (Map.insert name topo state, changed)
  | some prev ↦ if found_nothing topo then (state, changed) else (
    Map.insert name topo state,
    changed ++ (role_changes prev topo ++ newly_unreachable prev.unreachable topo.unreachable),
  )
]

refresh_clusters :
    (Text → List (Text × Probe))
    → Map Text ClusterConfig
    → Topology × List Text
    → Topology × List Text
unfolding refresh_cluster
refresh_clusters probes [] s = s
refresh_clusters probes ((name, _) ∷ rest) s =
    refresh_clusters probes rest (refresh_cluster name (discover_cluster (probes name)) s)

-- `contains_key` and `retain`: the clusters that a reload removed go, and their nodes are drained.
prune : Map Text ClusterConfig → Topology → Topology × List Text
prune clusters [] = ([], [])
prune clusters ((name, topo) ∷ rest) =
    let (left, gone) = prune clusters rest in
    elim (Map.lookup name clusters) [
      | some _ ↦ ((name, topo) ∷ left, gone)
      | none ↦ (left, node_list topo.primary ++ (topo.replicas ++ (topo.unreachable ++ gone)))
    ]

unfoldable pub refresh : (Text → List (Text × Probe)) → Config → Topology → Topology × List Text
unfolding refresh_clusters prune
refresh probes cfg state =
    let (found, changed) = refresh_clusters probes cfg.cluster (state, []) in
    let (left, gone) = prune cfg.cluster found in (left, changed ++ gone)
