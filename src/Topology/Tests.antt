-- ===== src/Topology/Tests.antt =====
-- Tests of the topology refresh.
use mathlib.Core.Bool.{false≢true}
use halephant.Prelude.Sets
use halephant.Prelude.Map
use halephant.Prelude.{
  ◌≡◌, sym, ap, refl, true, [], ◌∷◌, some, Text, text_eq, text_dec, ℕ_discrete, codes,
}
use halephant.Topology.{ClusterTopology, Topology}
use halephant.Topology.Refresh.{same_primary, refresh_cluster}
use halephant.Topology.Refresh.Drained.{refresh_cluster-drained}

abbrev topology_of : Text → Text → ClusterTopology
topology_of p r = record { primary = some p; replicas = r ∷ []; unreachable = [] }

abbrev before : Topology
before = (codes "main", topology_of (codes "a") (codes "b")) ∷ []

before-lookup : Map.lookup (codes "main") before ≡ some (topology_of (codes "a") (codes "b"))
unfolding Map.lookup text_dec ℕ_discrete
before-lookup = refl

after-lookup :
    Map.lookup
      (codes "main")
      (refresh_cluster (codes "main") (topology_of (codes "b") (codes "a")) (before, [])).0
    ≡ some (topology_of (codes "b") (codes "a"))
unfolding Map.lookup Map.insert refresh_cluster text_dec ℕ_discrete
after-lookup = refl

b≢a : ¬ (some (codes "b") ≡ some (codes "a"))
unfolding text_dec ℕ_discrete
b≢a e = false≢true (sym (ap (same_primary (some (codes "b"))) e))

refresh_cluster-drained_example :
    Sets.contains
      (codes "a")
      (refresh_cluster (codes "main") (topology_of (codes "b") (codes "a")) (before, [])).1
    ≡ true
refresh_cluster-drained_example =
    refresh_cluster-drained (codes "main") (codes "a") (topology_of (codes "b") (codes "a"))
      (topology_of (codes "a") (codes "b")) (topology_of (codes "b") (codes "a")) before []
      before-lookup refl after-lookup b≢a
