-- ===== src/Topology.antt =====
-- The lookups of crates/halephant-core/src/topology/mod.rs on the state of the topology manager.
pub mod Refresh
mod Tests
use halephant.Prelude.Map
use halephant.Prelude.Map.{Map}
use halephant.Prelude.{List, [], Option, none, some, Text, text_eq}

pub record ClusterTopology : Type 0 where
  pub primary : Option Text
  pub replicas : List Text
  pub unreachable : List Text

abbrev pub Topology : Type 0
Topology = Map Text ClusterTopology

unfoldable pub primary : Topology → Text → Option Text
primary state cluster = elim (Map.lookup cluster state) [ some t ↦ t.primary | none ↦ none ]

unfoldable pub replicas : Topology → Text → List Text
replicas state cluster = elim (Map.lookup cluster state) [ some t ↦ t.replicas | none ↦ [] ]
