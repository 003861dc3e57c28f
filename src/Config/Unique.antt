-- ===== src/Config/Unique.antt =====
-- In a validated configuration a database name stands for one pool.
use halephant.Prelude.Sets
use halephant.Prelude.Sets.{contains-insert}
use halephant.Prelude.Map
use halephant.Prelude.Map.{Map, Entry, here, there}
use halephant.Prelude.{
  ◌≡◌, refl, sym, ◌∙◌, true, false, List, [], ◌∷◌, none, some, Text, text_eq, inl, inr,
  Option-cases, Sum-cases, arith,
}
use halephant.Config.{
  see_databases, check_databases, find_in, find_pool, validate, validate_clusters,
}
use mathlib.Core.Bool.{false≢true}
use halephant.Config.Types.{PoolConfig, ClusterConfig, Config}

see_databases_keep :
    (seen seen' : List Text) (m : Map Text PoolConfig) (db : Text)
    → see_databases seen m ≡ inr seen'
    → Sets.contains db seen ≡ true
    → Sets.contains db seen' ≡ true
unfolding see_databases
see_databases_keep seen seen' [] db e h = ground arith
see_databases_keep seen seen' ((name, pool) ∷ rest) db e h =
    ground (
      arith,
      see_databases_keep (Sets.insert name seen) seen' rest db,
      contains-insert db name seen,
    )

see_databases_key :
    (seen seen' : List Text) (m : Map Text PoolConfig) (db : Text) (p : PoolConfig)
    → see_databases seen m ≡ inr seen'
    → Map.lookup db m ≡ some p
    → (Sets.contains db seen ≡ false) × (Sets.contains db seen' ≡ true)
unfolding see_databases Map.lookup
see_databases_key seen seen' [] db p e h = absurd (ground arith)
see_databases_key seen seen' ((name, pool) ∷ rest) db p e h = ground (
  arith,
  see_databases_key (Sets.insert name seen) seen' rest db p,
  contains-insert db name seen,
  see_databases_keep (Sets.insert name seen) seen' rest db,
)

check_databases_inv :
    (seen : List Text) (n : Text) (c : ClusterConfig) (rest : Map Text ClusterConfig)
    → check_databases seen ((n, c) ∷ rest) ≡ none
    → (seen' : List Text) × (see_databases seen c.pool ≡ inr seen')
      × (check_databases seen' rest ≡ none)
unfolding check_databases
check_databases_inv seen n c rest e = elim (Sum-cases (see_databases seen c.pool)) [
  | inl (a, h) ↦ absurd (ground (arith))
  | inr (seen', h) ↦ (seen', h, sym (rw (h, check_databases) refl) ∙ e)
]

-- A database that was seen before the clusters is in none of them.
check_databases_absent :
    {name : Text} {cluster : ClusterConfig} (seen : List Text) (cs : Map Text ClusterConfig)
    (db : Text)
    → check_databases seen cs ≡ none
    → Sets.contains db seen ≡ true
    → Entry name cluster cs
    → Map.lookup db cluster.pool ≡ none
check_databases_absent {name} {cluster} seen cs db e h (here m) =
    let (seen', hs, hc) = check_databases_inv seen name cluster m e in
    elim (Option-cases (Map.lookup db cluster.pool)) [
      | inl a ↦ a
      | inr (q, a) ↦
          absurd (false≢true (sym (see_databases_key seen seen' cluster.pool db q hs a).0 ∙ h))
    ]
check_databases_absent seen cs db e h (there (n, c) m i) =
    let (seen', hs, hc) = check_databases_inv seen n c m e in
    check_databases_absent seen' m db hc (see_databases_keep seen seen' c.pool db hs h) i

check_databases-find_in :
    {name : Text} {cluster : ClusterConfig} (seen : List Text) (cs : Map Text ClusterConfig)
    (db : Text) (p : PoolConfig)
    → check_databases seen cs ≡ none
    → Entry name cluster cs
    → Map.lookup db cluster.pool ≡ some p
    → find_in db cs ≡ some (name, (cluster, p))
unfolding find_in
check_databases-find_in seen cs db p e (here m) h = rw (h, find_in) refl
check_databases-find_in {name} {cluster} seen cs db p e (there (n, c) m i) h =
    let (seen', hs, hc) = check_databases_inv seen n c m e in
    let ih = check_databases-find_in seen' m db p hc i h in
    elim (Option-cases (Map.lookup db c.pool)) [
      | inl a ↦ rw (a, find_in) ih
      | inr (q, a) ↦ absurd (
          ground (
            arith,
            check_databases_absent {name = name} {cluster = cluster} seen' m db hc
                (see_databases_key seen seen' c.pool db q hs a).1 i,
          ))
    ]

pub validate_parts :
    (cfg : Config)
    → validate cfg ≡ none
    → (check_databases [] cfg.cluster ≡ none) × (validate_clusters cfg.cluster ≡ none)
unfolding validate
validate_parts cfg v = ground arith

-- In a configuration that passed validation, every pool of every cluster is the one that a lookup of
-- its database finds, with its cluster, whatever the order of the clusters.
pub find_pool-validate :
    {name : Text} {cluster : ClusterConfig} (cfg : Config) (db : Text) (p : PoolConfig)
    → validate cfg ≡ none
    → Entry name cluster cfg.cluster
    → Map.lookup db cluster.pool ≡ some p
    → find_pool cfg db ≡ some (name, (cluster, p))
unfolding find_pool
find_pool-validate cfg db p v i h =
    check_databases-find_in [] cfg.cluster db p (validate_parts cfg v).0 i h
