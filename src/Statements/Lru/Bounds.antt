-- ===== src/Statements/Lru/Bounds.antt =====
-- The two collections of `Lru` name the same statements, each once, and stay within the limit.
use halephant.Prelude.Sets
use halephant.Prelude.Sets.{
  Distinct, contains-concat, contains-requeue, Distinct-requeue, length-requeue, length-remove-le,
  contains-remove, contains-insert, Distinct-concat, Distinct-remove, Distinct-insert,
  length-remove, remove_absent,
}
use halephant.Prelude.{
  ℕ, ◌≤◌, ◌<◌, ◌%◌, ◌≡◌, inl, inr, refl, sym, subst, ◌∙◌, true, false, ◌&&◌, List, [], ◌∷◌, some,
  Text, text_eq, length, leb, ltb, arith, length-append, Bool-cases,
}
use halephant.Statements.Lru.{
  Lru, u32_mod, new, contains, touch, evict_from, evict, add, clear, remove,
}

pub record IsValid (l : Lru) : Type 0 where
  pub set : Distinct l.prepared
  pub queue : Distinct l.order
  pub same : (n : Text) → Sets.contains n l.order ≡ Sets.contains n l.prepared
  pub sized : length l.order ≡ length l.prepared
  pub limit : l.max < u32_mod
  pub bounded : 0 < l.max → length l.prepared ≤ l.max

pub new-IsValid : (max : ℕ) → max < u32_mod → IsValid (new max)
unfolding new Sets.contains
new-IsValid max h = record {
  set = tt;
  queue = tt;
  same = λ n. refl;
  sized = refl;
  limit = h;
  bounded = λ p. omega arith;
}

pub touch-IsValid :
    (l : Lru) (canon : Text) → IsValid l → contains l canon ≡ true → IsValid (touch l canon)
unfolding touch contains
touch-IsValid l canon v h = record {
  set = v.set;
  queue = Distinct-requeue canon l.order v.queue;
  same = λ n. ground (arith, contains-requeue n canon l.order, v.same n);
  sized = length-requeue canon l.order v.queue (v.same canon ∙ h) ∙ v.sized;
  limit = v.limit;
  bounded = v.bounded;
}

pub add-IsValid :
    (l : Lru) (canon : Text)
    → IsValid l
    → contains l canon ≡ false
    → (0 < l.max → length l.prepared < l.max)
    → IsValid (add l canon)
unfolding add contains Sets.insert
add-IsValid l canon v h room = record {
  set = Distinct-insert canon l.prepared v.set;
  queue = Distinct-concat canon l.order v.queue (v.same canon ∙ h);
  same = λ n.
      ground (arith, contains-concat n canon l.order, contains-insert n canon l.prepared, v.same n);
  sized = ground (arith, length-append l.order (canon ∷ []), v.sized);
  limit = v.limit;
  bounded = λ p. ground (arith, room p);
}

pub remove-IsValid : (l : Lru) (canon : Text) → IsValid l → IsValid (remove l canon)
unfolding remove
remove-IsValid l canon v = record {
  set = Distinct-remove canon l.prepared v.set;
  queue = Distinct-remove canon l.order v.queue;
  same = λ n.
      ground (arith, contains-remove n canon l.order, contains-remove n canon l.prepared, v.same n);
  sized = elim (Bool-cases (Sets.contains canon l.prepared)) [
    | inl held ↦ omega (
      arith,
      length-remove canon l.prepared v.set held,
      length-remove canon l.order v.queue (v.same canon ∙ held),
      v.sized,
    )
    | inr fresh ↦
        rw
          (remove_absent canon l.prepared fresh, remove_absent canon l.order (v.same canon ∙ fresh))
          v.sized
  ];
  limit = v.limit;
  bounded = λ p. omega (arith, length-remove-le canon l.prepared, v.bounded p);
}

pub clear-IsValid : (l : Lru) → IsValid l → IsValid (clear l)
unfolding clear Sets.contains
clear-IsValid l v = record {
  set = tt;
  queue = tt;
  same = λ n. refl;
  sized = refl;
  limit = v.limit;
  bounded = λ p. omega arith;
}

pub evict_from-remove :
    (l : Lru) (v : Text) (rest : List Text)
    → IsValid l
    → l.order ≡ v ∷ rest
    → evict_from l (v ∷ rest) ≡ (remove l v, some v)
unfolding evict_from remove Sets.remove
evict_from-remove l v rest d e = ground (arith, remove_absent v rest, order_tail l v rest d e)
  where
    order_tail :
        (l : Lru) (v : Text) (rest : List Text)
        → IsValid l
        → l.order ≡ v ∷ rest
        → Sets.contains v rest ≡ false
    order_tail l v rest d e = (subst Distinct e d.queue).0

pub evict-remove :
    (l : Lru) (v : Text) (rest : List Text)
    → IsValid l
    → l.order ≡ v ∷ rest
    → evict l ≡ (remove l v, some v)
unfolding evict
evict-remove l v rest d e =
    subst (λ q. evict_from l q ≡ (remove l v, some v)) (sym e) (evict_from-remove l v rest d e)

-- Below the limit the wrap of `len() as u32` does nothing.
pub is_full_iff :
    (l : Lru)
    → IsValid l
    → (ltb 0 l.max && leb l.max (length l.prepared % u32_mod))
      ≡ (ltb 0 l.max && leb l.max (length l.order))
is_full_iff l v = ground (arith, v.bounded, v.limit, v.sized)
