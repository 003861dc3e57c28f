-- ===== src/Pool/Types.antt =====
-- crates/halephant-core/src/pool/types.rs. An `Instant` and a `Duration` are numbers of
-- milliseconds, and `elapsed` is the distance from the time of the call, `now`.
use halephant.Prelude.Map
use halephant.Prelude.Map.{Map}
use halephant.Prelude.{
  ℕ, ◌+◌, ◌-◌, ◌≡◌, ap, Bool, true, List, [], ◌∷◌, Option, none, some, Text, text_dec, Equality,
  length, ltb, ite, if◌then◌else◌,
}

-- The counter behind it does not reach 2 ^ 64.
abbrev pub ConnId : Type 0
ConnId = ℕ

pub data Routing : Type 0 where
  primary replica : Routing

pub data NodeRole : Type 0 where
  primary replica unknown : NodeRole

pub record PoolKey : Type 0 where
  pub node : Text
  pub database : Text
  pub user : Text

pub same_key : (j k : PoolKey) → j.node ≡ k.node → j.database ≡ k.database → j.user ≡ k.user → j ≡ k
same_key j k p q r = cc

unfoldable pub key_dec : (j k : PoolKey) → Dec (j ≡ k)
key_dec j k = elim (text_dec j.node k.node) [
  | no n ↦ no (λ e. n (ap (λ x. x.node) e))
  | yes p ↦ elim (text_dec j.database k.database) [
    | no n ↦ no (λ e. n (ap (λ x. x.database) e))
    | yes q ↦ elim (text_dec j.user k.user) [
      | no n ↦ no (λ e. n (ap (λ x. x.user) e))
      | yes r ↦ yes (same_key j k p q r)
    ]
  ]
]

instance abbrev pub key_eq : Equality PoolKey
key_eq = record { dec = key_dec }

-- The type has more fields, which the pool passes on and never reads. The socket stands for
-- `framed`.
pub record ServerConn : Type 0 where
  pub created_at : ℕ
  pub socket : ℕ

pub record IdleConn : Type 0 where
  pub id : ConnId
  pub conn : ServerConn
  pub idle_since : ℕ

pub record Pool : Type 0 where
  pub idle : List IdleConn
  pub active : List ConnId
  pub resetting : List ConnId

-- `Pool::default()`.
abbrev pub empty_pool : Pool
empty_pool = record { idle = []; active = []; resetting = [] }

pub data CandidateResult : Type 0 where
  got_idle : PoolKey → IdleConn → CandidateResult
  claimed : PoolKey → ConnId → CandidateResult
  all_full : CandidateResult

abbrev pub total : Pool → ℕ
total p = length p.active + length p.idle + length p.resetting

-- A connection counts for a node and a database if its key names both.
abbrev pub weight : Text → Text → PoolKey → Pool → ℕ
weight node database k p =
    ite (text_dec k.node node) (ite (text_dec k.database database) (total p) 0) 0

unfoldable pub node_total : Text → Text → Map PoolKey Pool → ℕ
node_total node database pools = Map.total (weight node database) pools

module _ (now idle_timeout max_lifetime : ℕ) where
  unfoldable pub is_expired : IdleConn → Bool
  is_expired c =
      if ltb idle_timeout (now - c.idle_since)
      then true
      else ltb max_lifetime (now - c.conn.created_at)

  -- The first usable connection, with what is left of the queue.
  unfoldable pub pop_usable : List IdleConn → List IdleConn × Option IdleConn
  pop_usable [] = ([], none)
  pop_usable (c ∷ rest) =
      let later = pop_usable rest in if is_expired c then later else (rest, some c)

  unfoldable pub pop_idle : Pool → Pool × Option IdleConn
  pop_idle p = let (idle, found) = pop_usable p.idle in (record p { idle = idle }, found)

-- `entry(key).or_default()`, and the write through it.
unfoldable pub pool_at : PoolKey → Map PoolKey Pool → Pool
pool_at key pools = elim (Map.lookup key pools) [ some p ↦ p | none ↦ empty_pool ]
