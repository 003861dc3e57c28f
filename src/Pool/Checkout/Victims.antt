-- ===== src/Pool/Checkout/Victims.antt =====
-- The idle connection that gives way is one of the node and the database, so that closing it frees
-- a slot there.
use halephant.Prelude.Map
use halephant.Prelude.Map.{Map, Entry, here, there, Unique, Unique-insert}
use halephant.Prelude.{
  ℕ, ◌+◌, ◌≤◌, ◌≡◌, ◌⊎◌, ap, refl, sym, ◌∙◌, true, false, List, [], ◌∷◌, Option, none, some, Text,
  text_dec, ite, arith, Option-cases, length, inl, inr, if_pos, if_neg,
}
use halephant.Pool.Types.{PoolKey, key_eq, IdleConn, Pool, total, weight, node_total, pool_at}
use halephant.Pool.Totals.{share, pool_at-some, node_total-insert, weight-shrink}
use halephant.Pool.Checkout.{Pools, older, victim, drop_front, evict_at, evict_idle_for_node}

-- A pool of the key's node and database with an idle connection.
pub record IsVictim (key : PoolKey) (pools : Pools) (vk : PoolKey) : Type 0 where
  pub pool : Pool
  pub entry : Map.lookup vk pools ≡ some pool
  pub node : vk.node ≡ key.node
  pub database : vk.database ≡ key.database
  pub idle : 1 ≤ length pool.idle

older-cases :
    (k : PoolKey) (p : Pool) (best : Option (PoolKey × ℕ)) (cs : List IdleConn) (vk : PoolKey)
    (since : ℕ)
    → older k p best cs ≡ some (vk, since)
    → (best ≡ some (vk, since)) ⊎ ((k ≡ vk) × (1 ≤ length cs))
unfolding older
older-cases k p best [] vk since e = inl e
older-cases k p none (c ∷ cs) vk since e = inr (ground arith)
older-cases k p (some (j, t)) (c ∷ cs) vk since e = ground arith

later-IsVictim :
    (key k vk : PoolKey) (p : Pool) (rest : Pools)
    → Map.lookup k rest ≡ none
    → IsVictim key rest vk
    → IsVictim key ((k, p) ∷ rest) vk
unfolding Map.lookup
later-IsVictim key k vk p rest h v = record {
  pool = v.pool;
  entry = let e = v.entry in ground arith;
  node = v.node;
  database = v.database;
  idle = v.idle;
}

head-IsVictim :
    (key k vk : PoolKey) (p : Pool) (rest : Pools)
    → k.node ≡ key.node
    → k.database ≡ key.database
    → k ≡ vk
    → 1 ≤ length p.idle
    → IsVictim key ((k, p) ∷ rest) vk
unfolding Map.lookup
head-IsVictim key k vk p rest hn hd e hi = record {
  pool = p;
  entry = ground arith;
  node = ap (λ x. x.node) (sym e) ∙ hn;
  database = ap (λ x. x.database) (sym e) ∙ hd;
  idle = hi;
}

victim-IsVictim :
    (key : PoolKey) (best : Option (PoolKey × ℕ)) (pools : Pools) (vk : PoolKey) (since : ℕ)
    → Unique pools
    → victim key best pools ≡ some (vk, since)
    → (best ≡ some (vk, since)) ⊎ IsVictim key pools vk
unfolding victim
victim-IsVictim key best [] vk since u e = inl e
victim-IsVictim key best ((k, p) ∷ rest) vk since u e =
    elim (victim-IsVictim key
      (ite (text_dec k.node key.node)
        (ite (text_dec k.database key.database) (older k p best p.idle) best) best)
      rest vk since u.1 e) [
        | inr v ↦ inr (later-IsVictim key k vk p rest u.0 v)
        | inl b ↦ elim (text_dec k.node key.node) [
          | no n ↦ inl (sym (if_neg (text_dec k.node key.node) n _ _) ∙ b)
          | yes hn ↦ elim (text_dec k.database key.database) [
            | no n ↦ inl (
                sym (
                  if_pos (text_dec k.node key.node) hn _ _
                  ∙ if_neg (text_dec k.database key.database) n _ _)
                ∙ b)
            | yes hd ↦
                elim (older-cases k p best p.idle vk since (
                  sym (
                    if_pos (text_dec k.node key.node) hn _ _
                    ∙ if_pos (text_dec k.database key.database) hd _ _)
                  ∙ b)) [
                    | inl same ↦ inl same
                    | inr (e', hi) ↦ inr (head-IsVictim key k vk p rest hn hd e' hi)
                  ]
          ]
        ]
      ]

drop_front-total :
    (p : Pool) → 1 ≤ length p.idle → total (record p { idle = drop_front p.idle }) + 1 ≡ total p
unfolding drop_front
drop_front-total p h = ground arith

share-IsVictim :
    (n d : Text) (key vk : PoolKey) (pools : Pools)
    → IsVictim key pools vk
    → share n d vk ≡ share n d key
share-IsVictim n d key vk pools v = rw (v.node, v.database) refl

-- What an eviction leaves.
pub record Evicted (key : PoolKey) (pools kept : Pools) : Type 0 where
  pub unique : Unique kept
  pub frees : (n d : Text) → node_total n d kept + share n d key ≡ node_total n d pools

evict_at-Evicted :
    (key vk : PoolKey) (pools : Pools)
    → Unique pools
    → IsVictim key pools vk
    → Evicted key pools (evict_at vk (Map.lookup vk pools) pools)
unfolding evict_at pool_at
evict_at-Evicted key vk pools u v =
    let q = record v.pool { idle = drop_front v.pool.idle } in
    rw v.entry (record {
      unique = Unique-insert vk q pools u;
      frees = λ n d. omega (
        arith,
        node_total-insert n d vk q pools,
        share-IsVictim n d key vk pools v,
        weight-shrink n d vk v.pool q (drop_front-total v.pool v.idle),
        ap (weight n d vk) (pool_at-some vk v.pool pools v.entry),
      );
    })

-- An eviction that succeeds frees one connection of the node and the database.
pub evict_idle_for_node-Evicted :
    (key : PoolKey) (pools : Pools)
    → Unique pools
    → (evict_idle_for_node key pools).1 ≡ true
    → Evicted key pools (evict_idle_for_node key pools).0
unfolding evict_idle_for_node
evict_idle_for_node-Evicted key pools u h = elim (Option-cases (victim key none pools)) [
  | inl e ↦ absurd (ground arith)
  | inr ((vk, since), e) ↦ elim (victim-IsVictim key none pools vk since u e) [
    | inl e' ↦ absurd (ground arith)
    | inr v ↦ rw (e, evict_idle_for_node) (evict_at-Evicted key vk pools u v)
  ]
]

pub evict_idle_for_node-none :
    (key : PoolKey) (pools : Pools)
    → (evict_idle_for_node key pools).1 ≡ false
    → (evict_idle_for_node key pools).0 ≡ pools
unfolding evict_idle_for_node
evict_idle_for_node-none key pools h = ground (arith, Option-cases (victim key none pools))
