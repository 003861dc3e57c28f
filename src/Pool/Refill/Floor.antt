-- ===== src/Pool/Refill/Floor.antt =====
-- A scavenge closes every connection that is not healthy, and stale ones down to the minimum.
use halephant.Prelude.{
  ℕ, zero, suc, ◌+◌, ◌-◌, ◌≤◌, ◌≡◌, ◌⊎◌, inl, inr, Bool, true, false, List, [], ◌∷◌, length, arith,
  retain, All, Bool-cases,
}
use halephant.Config.Types.{Config}
use halephant.Pool.Types.{PoolKey, ServerConn, IdleConn}
use halephant.Pool.Limits.{min_for_key}
use halephant.Pool.Refill.{drop_stale, is_healthy, is_stale, scavenge_idle}
use halephant.Topology.{Topology}

-- The entries that go are counted.
length-drop_stale :
    (stale : IdleConn → Bool) (k : ℕ) (cs : List IdleConn)
    → length cs ≤ length (drop_stale stale k cs) + k
unfolding drop_stale
length-drop_stale stale k [] = omega arith
length-drop_stale stale zero (c ∷ cs) = omega arith
length-drop_stale stale (suc k) (c ∷ cs) =
    ground (arith, length-drop_stale stale k cs, length-drop_stale stale (suc k) cs)

pub length-drop_stale-le :
    (stale : IdleConn → Bool) (k : ℕ) (cs : List IdleConn)
    → length (drop_stale stale k cs) ≤ length cs
unfolding drop_stale
length-drop_stale-le stale k [] = omega arith
length-drop_stale-le stale zero (c ∷ cs) = omega arith
length-drop_stale-le stale (suc k) (c ∷ cs) =
    ground (arith, length-drop_stale-le stale k cs, length-drop_stale-le stale (suc k) cs)

-- Either all that may go are gone, or no stale entry is left.
drop_stale-fresh :
    (stale : IdleConn → Bool) (k : ℕ) (cs : List IdleConn)
    → (length cs ≡ length (drop_stale stale k cs) + k)
      ⊎ All (λ c. stale c ≡ false) (drop_stale stale k cs)
unfolding drop_stale
drop_stale-fresh stale k [] = inr tt
drop_stale-fresh stale zero (c ∷ cs) = inl (omega arith)
drop_stale-fresh stale (suc k) (c ∷ cs) = elim (Bool-cases (stale c)) [
  | inl e ↦ ground (arith, drop_stale-fresh stale k cs)
  | inr e ↦ ground (arith, drop_stale-fresh stale (suc k) cs)
]

drop_stale-All :
    (P : IdleConn → Type 0) (stale : IdleConn → Bool) (k : ℕ) (cs : List IdleConn)
    → All P cs
    → All P (drop_stale stale k cs)
unfolding drop_stale
drop_stale-All P stale k [] h = tt
drop_stale-All P stale zero (c ∷ cs) h = h
drop_stale-All P stale (suc k) (c ∷ cs) h = elim (Bool-cases (stale c)) [
  | inl e ↦ rw (e, drop_stale) (drop_stale-All P stale k cs h.1)
  | inr e ↦ rw (e, drop_stale) (h.0, drop_stale-All P stale (suc k) cs h.1)
]

retain-passes : (p : IdleConn → Bool) (cs : List IdleConn) → All (λ c. p c ≡ true) (retain p cs)
retain-passes p [] = tt
retain-passes p (c ∷ cs) = elim (Bool-cases (p c)) [
  | inl e ↦ rw (e, retain) (e, retain-passes p cs)
  | inr e ↦ rw (e, retain) (retain-passes p cs)
]

module _ (is_alive : ServerConn → Bool) (cfg : Config) (topo : Topology) (now : ℕ) where
  -- What a scavenge of one pool promises: healthy connections only; no fewer than the minimum, or
  -- all the healthy ones; no more than the minimum, or none that is stale.
  pub record IsScavenged (key : PoolKey) (idle kept : List IdleConn) : Type 0 where
    pub healthy : All (λ c. is_healthy is_alive cfg topo now key c ≡ true) kept
    pub floor :
        (min_for_key cfg topo key ≤ length kept)
        ⊎ (length kept ≡ length (retain (is_healthy is_alive cfg topo now key) idle))
    pub ceiling :
        (length kept ≤ min_for_key cfg topo key)
        ⊎ All (λ c. is_stale is_alive cfg topo now key c ≡ false) kept

  -- A scavenge keeps only healthy connections, goes below the minimum only if the healthy ones
  -- already were, and stays above it only if nothing that it keeps is stale.
  pub scavenge_idle-IsScavenged :
      (key : PoolKey) (idle : List IdleConn)
      → IsScavenged key idle (scavenge_idle is_alive cfg topo now key idle)
  unfolding scavenge_idle
  scavenge_idle-IsScavenged key idle =
      let live = retain (is_healthy is_alive cfg topo now key) idle in
      let stale = is_stale is_alive cfg topo now key in
      let k = length live - min_for_key cfg topo key in
      record {
        healthy =
            drop_stale-All _ stale k live
              (retain-passes (is_healthy is_alive cfg topo now key) idle);
        floor = ground (arith, length-drop_stale stale k live, length-drop_stale-le stale k live);
        ceiling = elim (drop_stale-fresh stale k live) [
          | inl e ↦ inl (omega (arith, e))
          | inr h ↦ inr h
        ];
      }
