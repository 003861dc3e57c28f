-- ===== src/Pool/Refill/Cycle.antt =====
-- A connection that is checked in and reset goes to the back of the idle queue, and counts once all
-- the way; a refill adds one whatever the limit.
use halephant.Prelude.Sets
use halephant.Prelude.Sets.{remove_absent, length-remove, Distinct}
use halephant.Prelude.Map
use halephant.Prelude.Map.{lookup-insert}
use halephant.Prelude.{
  ℕ, ◌++◌, ◌≡◌, ap, refl, ◌∙◌, true, false, List, [], ◌∷◌, some, Text, nat_eq, length-append, arith,
  ite, if_pos,
}
use halephant.Pool.Types.{
  ConnId, PoolKey, key_eq, key_dec, ServerConn, Pool, total, weight, node_total,
}
use halephant.Pool.Totals.{node_total-insert, pool_at-some}
use halephant.Pool.Checkout.{Pools}
use halephant.Pool.Refill.{modify, checkin, return_reset}

-- A connection that is in use, and only that.
pub record IsActive (id : ConnId) (p : Pool) : Type 0 where
  pub distinct : Distinct p.active
  pub active : Sets.contains id p.active ≡ true
  pub not_resetting : Sets.contains id p.resetting ≡ false

abbrev pub returned : ConnId → ServerConn → ℕ → Pool → Pool
returned id conn now p = record p {
  active = Sets.remove id p.active;
  idle = p.idle ++ record { id = id; conn = conn; idle_since = now } ∷ [];
}

remove-insert :
    (id : ConnId) (xs : List ConnId)
    → Sets.contains id xs ≡ false
    → Sets.remove id (Sets.insert id xs) ≡ xs
unfolding Sets.insert Sets.remove
remove-insert id xs h = ground (arith, remove_absent id xs)

weight-same :
    (n d : Text) (k : PoolKey) (p q : Pool) → total q ≡ total p → weight n d k q ≡ weight n d k p
weight-same n d k p q h = ground arith

weight-here : (k : PoolKey) (p : Pool) → weight k.node k.database k p ≡ total p
weight-here k p = ground arith

total-returned :
    (id : ConnId) (conn : ServerConn) (now : ℕ) (p : Pool)
    → IsActive id p
    → total (returned id conn now p) ≡ total p
total-returned id conn now p a = omega (
  arith,
  length-remove id p.active a.distinct a.active,
  length-append p.idle (record { id = id; conn = conn; idle_since = now } ∷ []),
)

abbrev checked : ConnId → Pool → Pool
checked id p = record p { active = Sets.remove id p.active; resetting = Sets.insert id p.resetting }

abbrev back : ConnId → ServerConn → ℕ → Pool → Pool
back id conn now p = record p {
  resetting = Sets.remove id p.resetting;
  idle = p.idle ++ record { id = id; conn = conn; idle_since = now } ∷ [];
}

checkin-some :
    (key : PoolKey) (id : ConnId) (p : Pool) (pools : Pools)
    → Map.lookup key pools ≡ some p
    → checkin key id pools ≡ Map.insert key (checked id p) pools
unfolding checkin modify
checkin-some key id p pools e = rw (e, checkin, modify) refl

return_reset-some :
    (key : PoolKey) (id : ConnId) (conn : ServerConn) (now : ℕ) (p : Pool) (pools : Pools)
    → Map.lookup key pools ≡ some p
    → (return_reset key id conn now pools).0 ≡ Map.insert key (back id conn now p) pools
unfolding return_reset
return_reset-some key id conn now p pools e = rw (e, return_reset) refl

lookup-inserted :
    (key : PoolKey) (p : Pool) (pools : Pools) → Map.lookup key (Map.insert key p pools) ≡ some p
lookup-inserted key p pools = lookup-insert key key p pools ∙ if_pos (key_dec key key) refl _ _

back-checked :
    (id : ConnId) (conn : ServerConn) (now : ℕ) (p : Pool)
    → IsActive id p
    → back id conn now (checked id p) ≡ returned id conn now p
back-checked id conn now p a = rw (remove-insert id p.resetting a.not_resetting) refl

round_trip :
    (key : PoolKey) (id : ConnId) (conn : ServerConn) (now : ℕ) (p : Pool) (pools : Pools)
    → Map.lookup key pools ≡ some p
    → IsActive id p
    → (return_reset key id conn now (checkin key id pools)).0
      ≡ Map.insert key (returned id conn now p) (Map.insert key (checked id p) pools)
round_trip key id conn now p pools e a =
    ap (λ m. (return_reset key id conn now m).0) (checkin-some key id p pools e)
    ∙ return_reset-some key id conn now (checked id p) _ (lookup-inserted key (checked id p) pools)
    ∙ ap (λ q. Map.insert key q (Map.insert key (checked id p) pools))
        (back-checked id conn now p a)

-- A connection in use that is checked in and reset is at the back of the idle queue of its pool, in
-- use and in reset no more, and the other pools are as they were.
pub return_reset-checkin :
    (key : PoolKey) (id : ConnId) (conn : ServerConn) (now : ℕ) (p : Pool) (pools : Pools)
    (j : PoolKey)
    → Map.lookup key pools ≡ some p
    → IsActive id p
    → Map.lookup j (return_reset key id conn now (checkin key id pools)).0
      ≡ ite (key_dec key j) (some (returned id conn now p)) (Map.lookup j pools)
return_reset-checkin key id conn now p pools j e a = rw (round_trip key id conn now p pools e a) (
    ground (
      arith,
      lookup-insert j key (returned id conn now p) (Map.insert key (checked id p) pools),
      lookup-insert j key (checked id p) pools,
    ))

-- The check-in of a connection in use, followed by a reset that succeeds, leaves the number of
-- connections of every node and database as it was.
pub node_total-checkin :
    (key : PoolKey) (id : ConnId) (conn : ServerConn) (now : ℕ) (p : Pool) (pools : Pools)
    (n d : Text)
    → Map.lookup key pools ≡ some p
    → IsActive id p
    → node_total n d (return_reset key id conn now (checkin key id pools)).0 ≡ node_total n d pools
node_total-checkin key id conn now p pools n d e a = rw (round_trip key id conn now p pools e a) (
    omega (
      arith,
      node_total-insert n d key (returned id conn now p) (Map.insert key (checked id p) pools),
      node_total-insert n d key (checked id p) pools,
      ap (weight n d key) (pool_at-some key p pools e),
      ap (weight n d key)
          (pool_at-some key (checked id p) _ (lookup-inserted key (checked id p) pools)),
      weight-same n d key p (returned id conn now p) (total-returned id conn now p a),
    ))
