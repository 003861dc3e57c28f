-- ===== src/Prelude/Sets.antt =====
-- `HashSet`: a list without duplicates; the queues that keep one entry per name use it too.
use Prim.Native.Nat.{◌+◌, ◌≤◌}
use mathlib.Core.Bool.{Bool, true, false}
use mathlib.Core.List.{List, [], ◌∷◌, ◌++◌}
use mathlib.Core.Logic.{ite}
use mathlib.Core.Path.{◌≡◌, refl}
use native.Mathlib.Omega.{arith}
use halephant.Prelude.Eq.{Equality}
use halephant.Prelude.Lists.{length, length-append}
use halephant.Prelude.Tests.{if◌then◌else◌}

module _ {A : Type 0} ⦃e : Equality A⦄ where
  unfoldable pub contains : A → List A → Bool
  contains a [] = false
  contains a (x ∷ xs) = ite (e.dec x a) true (contains a xs)

  unfoldable pub insert : A → List A → List A
  insert a xs = if contains a xs then xs else a ∷ xs

  unfoldable pub remove : A → List A → List A
  remove a [] = []
  remove a (x ∷ xs) = ite (e.dec x a) (remove a xs) (x ∷ remove a xs)

  abbrev pub Distinct : List A → Type 0
  Distinct [] = Unit
  Distinct (x ∷ xs) = (contains x xs ≡ false) × Distinct xs

  pub contains-nil : (b : A) → contains b [] ≡ false
  unfolding contains
  contains-nil b = refl

  pub contains-cons :
      (b a : A) (xs : List A) → contains b (a ∷ xs) ≡ ite (e.dec a b) true (contains b xs)
  unfolding contains
  contains-cons b a xs = refl

  pub contains-remove :
      (b a : A) (xs : List A) → contains b (remove a xs) ≡ ite (e.dec a b) false (contains b xs)
  unfolding contains remove
  contains-remove b a [] = ground arith
  contains-remove b a (x ∷ xs) = ground (arith, contains-remove b a xs)

  pub contains-insert :
      (b a : A) (xs : List A) → contains b (insert a xs) ≡ ite (e.dec a b) true (contains b xs)
  unfolding contains insert
  contains-insert b a xs = ground arith

  pub contains-append :
      (b : A) (xs ys : List A)
      → contains b (xs ++ ys) ≡ (if contains b xs then true else contains b ys)
  unfolding contains
  contains-append b [] ys = refl
  contains-append b (x ∷ xs) ys = ground (arith, contains-append b xs ys)

  pub remove_absent : (a : A) (xs : List A) → contains a xs ≡ false → remove a xs ≡ xs
  unfolding contains remove
  remove_absent a [] h = refl
  remove_absent a (x ∷ xs) h = ground (arith, remove_absent a xs)

  pub remove-append : (a : A) (xs ys : List A) → remove a (xs ++ ys) ≡ remove a xs ++ remove a ys
  unfolding remove
  remove-append a [] ys = refl
  remove-append a (x ∷ xs) ys = ground (arith, remove-append a xs ys)

  pub length-remove-le : (a : A) (xs : List A) → length (remove a xs) ≤ length xs
  unfolding remove
  length-remove-le a [] = omega arith
  length-remove-le a (x ∷ xs) = ground (arith, length-remove-le a xs)

  -- A member of a set counts once.
  pub length-remove :
      (a : A) (xs : List A)
      → Distinct xs
      → contains a xs ≡ true
      → length (remove a xs) + 1 ≡ length xs
  unfolding contains remove
  length-remove a [] d h = ground arith
  length-remove a (x ∷ xs) d h = ground (arith, length-remove a xs d.1, remove_absent a xs)

  pub Distinct-remove : (a : A) (xs : List A) → Distinct xs → Distinct (remove a xs)
  unfolding remove
  Distinct-remove a [] d = d
  Distinct-remove a (x ∷ xs) d = ground (arith, Distinct-remove a xs d.1, contains-remove x a xs)

  pub Distinct-insert : (a : A) (xs : List A) → Distinct xs → Distinct (insert a xs)
  unfolding insert
  Distinct-insert a xs d = ground arith

  -- A new member at the back.
  pub Distinct-concat :
      (a : A) (xs : List A) → Distinct xs → contains a xs ≡ false → Distinct (xs ++ a ∷ [])
  unfolding contains
  Distinct-concat a [] d h = ground arith
  Distinct-concat a (x ∷ xs) d h =
      ground (arith, Distinct-concat a xs d.1, contains-append x xs (a ∷ []))

  -- A member moved to the back of a queue.
  pub contains-concat :
      (b a : A) (xs : List A) → contains b (xs ++ a ∷ []) ≡ ite (e.dec a b) true (contains b xs)
  contains-concat b a xs =
      ground (arith, contains-append b xs (a ∷ []), contains-cons b a [], contains-nil b)

  pub contains-requeue :
      (b a : A) (xs : List A)
      → contains b (remove a xs ++ a ∷ []) ≡ ite (e.dec a b) true (contains b xs)
  contains-requeue b a xs =
      ground (arith, contains-concat b a (remove a xs), contains-remove b a xs)

  pub Distinct-requeue : (a : A) (xs : List A) → Distinct xs → Distinct (remove a xs ++ a ∷ [])
  Distinct-requeue a xs d =
      Distinct-concat a (remove a xs) (Distinct-remove a xs d)
        (ground (arith, contains-remove a a xs))

  pub length-requeue :
      (a : A) (xs : List A)
      → Distinct xs
      → contains a xs ≡ true
      → length (remove a xs ++ a ∷ []) ≡ length xs
  length-requeue a xs d h =
      omega (arith, length-append (remove a xs) (a ∷ []), length-remove a xs d h)
