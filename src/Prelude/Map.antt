-- ===== src/Prelude/Map.antt =====
-- `HashMap`: an association list. An insertion replaces the entry of its key, a removal drops it.
use Prim.Native.Nat.{ℕ, ◌+◌, ◌≤◌}
use mathlib.Core.List.{List, [], ◌∷◌}
use mathlib.Core.Logic.{ite}
use mathlib.Core.Option.{Option, none, some}
use mathlib.Core.Path.{◌≡◌, refl}
use native.Mathlib.Omega.{arith}
use halephant.Prelude.Eq.{Equality}

abbrev pub Map : Type 0 → Type 0 → Type 0
Map K V = List (K × V)

module _ {K V : Type 0} ⦃e : Equality K⦄ where
  unfoldable pub lookup : K → Map K V → Option V
  lookup k [] = none
  lookup k ((j, v) ∷ m) = ite (e.dec j k) (some v) (lookup k m)

  unfoldable pub insert : K → V → Map K V → Map K V
  insert k v [] = (k, v) ∷ []
  insert k v ((j, w) ∷ m) = ite (e.dec j k) ((k, v) ∷ m) ((j, w) ∷ insert k v m)

  unfoldable pub remove : K → Map K V → Map K V
  remove k [] = []
  remove k ((j, v) ∷ m) = ite (e.dec j k) (remove k m) ((j, v) ∷ remove k m)

  pub lookup-insert :
      (j k : K) (v : V) (m : Map K V)
      → lookup j (insert k v m) ≡ ite (e.dec k j) (some v) (lookup j m)
  unfolding lookup insert
  lookup-insert j k v [] = refl
  lookup-insert j k v ((i, w) ∷ m) = ground (arith, lookup-insert j k v m)

  pub lookup-remove :
      (j k : K) (m : Map K V) → lookup j (remove k m) ≡ ite (e.dec k j) none (lookup j m)
  unfolding lookup remove
  lookup-remove j k [] = ground arith
  lookup-remove j k ((i, w) ∷ m) = ground (arith, lookup-remove j k m)

-- The sum of a weight over the entries.
module _ {K V : Type 0} (w : K → V → ℕ) where
  abbrev pub total : Map K V → ℕ
  total [] = 0
  total ((k, v) ∷ m) = w k v + total m

  abbrev pub weight_of : K → Option V → ℕ
  weight_of k none = 0
  weight_of k (some v) = w k v

module _ {K V : Type 0} ⦃e : Equality K⦄ (w : K → V → ℕ) where
  pub total-insert :
      (k : K) (v : V) (m : Map K V)
      → total w (insert k v m) + weight_of w k (lookup k m) ≡ total w m + w k v
  unfolding lookup insert
  total-insert k v [] = omega arith
  total-insert k v ((j, u) ∷ m) = ground (arith, total-insert k v m)

-- Each key has one entry.
module _ {K V : Type 0} ⦃e : Equality K⦄ where
  abbrev pub Unique : Map K V → Type 0
  Unique [] = Unit
  Unique ((k, v) ∷ m) = (lookup k m ≡ none) × Unique m

  pub Unique-insert : (k : K) (v : V) (m : Map K V) → Unique m → Unique (insert k v m)
  unfolding lookup insert
  Unique-insert k v [] u = (refl, tt)
  Unique-insert k v ((j, w) ∷ m) u = ground (arith, Unique-insert k v m u.1, lookup-insert j k v m)

  pub Unique-remove : (k : K) (m : Map K V) → Unique m → Unique (remove k m)
  unfolding remove
  Unique-remove k [] u = tt
  Unique-remove k ((j, w) ∷ m) u = ground (arith, Unique-remove k m u.1, lookup-remove j k m)

  pub remove_absent : (k : K) (m : Map K V) → lookup k m ≡ none → remove k m ≡ m
  unfolding lookup remove
  remove_absent k [] h = refl
  remove_absent k ((j, w) ∷ m) h = ground (arith, remove_absent k m)

  pub total-remove :
      (w : K → V → ℕ) (k : K) (m : Map K V)
      → Unique m
      → total w (remove k m) + weight_of w k (lookup k m) ≡ total w m
  unfolding lookup remove
  total-remove w k [] u = omega arith
  total-remove w k ((j, v) ∷ m) u = ground (arith, total-remove w k m u.1, remove_absent k m)

  pub weight-le-total :
      (w : K → V → ℕ) (k : K) (m : Map K V) → weight_of w k (lookup k m) ≤ total w m
  unfolding lookup
  weight-le-total w k [] = omega arith
  weight-le-total w k ((j, v) ∷ m) = ground (arith, weight-le-total w k m)

-- The entries of a map, one by one.
pub data Entry {K V : Type 0} (k : K) (v : V) : Map K V → Type 0 where
  here : (m : Map K V) → Entry k v ((k, v) ∷ m)
  there : (x : K × V) (m : Map K V) → Entry k v m → Entry k v (x ∷ m)
