-- ===== src/Statements/Lru/Contents.antt =====
-- Which names `Lru` holds after each operation.
use halephant.Prelude.Sets
use halephant.Prelude.Sets.{contains-remove, contains-insert}
use halephant.Prelude.{
  ◌≡◌, inl, inr, refl, ite, Bool, true, false, Option, none, some, Text, text_eq, text_dec, ℕ,
}
use halephant.Statements.Lru.{Lru, new, touch, contains, add, insert, clear, remove}
use halephant.Statements.Lru.Bounds.{IsValid}
use halephant.Statements.Lru.Recency.{insert_cases}

-- What is left of a test for `n` when the victim, if any, is gone.
abbrev pub without : Option Text → Text → Bool → Bool
without none n b = b
without (some v) n b = ite (text_dec v n) false b

pub contains-remove_lem :
    (l : Lru) (c n : Text) → contains (remove l c) n ≡ ite (text_dec c n) false (contains l n)
unfolding contains remove
contains-remove_lem l c n = contains-remove n c l.prepared

pub contains-add :
    (l : Lru) (c n : Text) → contains (add l c) n ≡ ite (text_dec c n) true (contains l n)
unfolding contains add
contains-add l c n = contains-insert n c l.prepared

pub contains-clear : (l : Lru) (n : Text) → contains (clear l) n ≡ false
unfolding contains clear Sets.contains
contains-clear l n = refl

-- After a new name is inserted the cache holds it, no longer holds the name that gave way, and
-- is otherwise as it was.
pub contains-insert_fresh :
    (l : Lru) (c n : Text)
    → IsValid l
    → contains l c ≡ false
    → contains (insert l c).0 n ≡ ite (text_dec c n) true (without (insert l c).1 n (contains l n))
contains-insert_fresh l c n v h = elim (insert_cases l c v h) [
  | inl (e, _) ↦ rw e (contains-add l c n)
  | inr (x, rest, _, e, _) ↦
      rw e (rw (contains-add (remove l x) c n, contains-remove_lem l x n) refl)
]

pub contains-touch : (l : Lru) (c n : Text) → contains (touch l c) n ≡ contains l n
unfolding contains touch
contains-touch l c n = refl

pub contains-new : (max : ℕ) (n : Text) → contains (new max) n ≡ false
unfolding contains new Sets.contains
contains-new max n = refl
