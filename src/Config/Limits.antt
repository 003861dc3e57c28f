-- ===== src/Config/Limits.antt =====
-- What validation guarantees of a pool that a lookup finds.
use mathlib.Core.Option.{some-injective}
use halephant.Prelude.Map
use halephant.Prelude.Map.{Map}
use halephant.Prelude.{
  ◌≡◌, refl, sym, ◌∙◌, ◌≤◌, false, [], ◌∷◌, Option, none, some, Text, text_eq, inl, inr,
  Option-cases, arith, text_dec, subst, if_pos, if_neg,
}
use halephant.Config.{
  Invalid, and_then, find_in, find_pool, validate, validate_clusters, validate_cluster,
  validate_pools, validate_pool, sum_u32, check_minimum, check_listen_mode, is_nil,
}
use halephant.Config.Types.{PoolConfig, ClusterConfig, Config, session}
use halephant.Config.Unique.{validate_parts}

and_then-none : (a b : Option Invalid) → and_then a b ≡ none → (a ≡ none) × (b ≡ none)
and_then-none none b h = (refl, h)
and_then-none (some e) b h = absurd (ground arith)

validate_pools-lookup :
    (m : Map Text PoolConfig) (db : Text) (p : PoolConfig)
    → validate_pools m ≡ none
    → Map.lookup db m ≡ some p
    → (name : Text) × (validate_pool name p ≡ none)
unfolding validate_pools Map.lookup
validate_pools-lookup [] db p v h = absurd (ground arith)
validate_pools-lookup ((name, pool) ∷ rest) db p v h =
    let (a, b) = and_then-none (validate_pool name pool) (validate_pools rest) v in
    elim (text_dec name db) [
      | yes e ↦ (
        name,
        subst (λ q. validate_pool name q ≡ none)
            (some-injective _ _ (sym (if_pos (text_dec name db) e _ _) ∙ h)) a,
      )
      | no n ↦ validate_pools-lookup rest db p b (sym (if_neg (text_dec name db) n _ _) ∙ h)
    ]

-- The checks that a pool passed.
pub record PoolIsValid (p : PoolConfig) : Type 0 where
  pub has_user : is_nil p.user ≡ false
  pub transaction_if_listen_mode : (p.mode ≡ session) → p.listen_mode ≡ none
  pub primary_le : sum_u32 (λ u. u.min_connections.primary) p.user ≤ p.max_connections.primary
  pub replica_le : sum_u32 (λ u. u.min_connections.replica) p.user ≤ p.max_connections.replica

validate_pool-PoolIsValid :
    (name : Text) (p : PoolConfig) → validate_pool name p ≡ none → PoolIsValid p
unfolding validate_pool check_minimum check_listen_mode
validate_pool-PoolIsValid name p v = record {
  has_user = ground arith;
  transaction_if_listen_mode = λ h. ground arith;
  primary_le = ground arith;
  replica_le = ground arith;
}

validate_cluster-lookup :
    (name : Text) (c : ClusterConfig) (db : Text) (p : PoolConfig)
    → validate_cluster name c ≡ none
    → Map.lookup db c.pool ≡ some p
    → PoolIsValid p
unfolding validate_cluster
validate_cluster-lookup name c db p v h =
    let (n, e) = validate_pools-lookup c.pool db p (ground arith) h in
    validate_pool-PoolIsValid n p e

validate_clusters-find_in :
    (cs : Map Text ClusterConfig) (db name : Text) (c : ClusterConfig) (p : PoolConfig)
    → validate_clusters cs ≡ none
    → find_in db cs ≡ some (name, (c, p))
    → PoolIsValid p
unfolding validate_clusters find_in
validate_clusters-find_in [] db name c p v h = absurd (ground arith)
validate_clusters-find_in ((n, d) ∷ rest) db name c p v h =
    let (a, b) = and_then-none (validate_cluster n d) (validate_clusters rest) v in
    elim (Option-cases (Map.lookup db d.pool)) [
      | inl e ↦ validate_clusters-find_in rest db name c p b (sym (rw (e, find_in) refl) ∙ h)
      | inr (q, e) ↦
          let found : find_in db ((n, d) ∷ rest) ≡ some (n, (d, q)) = rw (e, find_in) refl in
          let same = some-injective _ _ (sym found ∙ h) in
          subst (λ f. PoolIsValid f.1.1) same (validate_cluster-lookup n d db q a e)
    ]

-- A pool that a lookup finds in a validated configuration has a user, has a `listen_mode` only in
-- transaction mode, and its users' minimums, summed as `u32`, do not exceed its limits.
pub find_pool-PoolIsValid :
    (cfg : Config) (db name : Text) (c : ClusterConfig) (p : PoolConfig)
    → validate cfg ≡ none
    → find_pool cfg db ≡ some (name, (c, p))
    → PoolIsValid p
unfolding find_pool
find_pool-PoolIsValid cfg db name c p v h =
    validate_clusters-find_in cfg.cluster db name c p (validate_parts cfg v).1 h
