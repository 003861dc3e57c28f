-- ===== src/Prelude/Eq.antt =====
-- Decidable equality as an interface (Rust's `Eq`), for the keys of maps and the members of sets.
use Prim.Native.Nat.{ℕ}
use mathlib.Core.List.{List, [], ◌∷◌}
use mathlib.Core.Path.{◌≡◌, refl, ap₂}
unfoldable use native.Mathlib.Decide.{ℕ_discrete}

pub record Equality {ℓ} (A : Type ℓ) : Type ℓ where
  pub dec : Discrete A

-- The characters of a Rust `String` or `&str`, as code points.
abbrev pub Text : Type 0
Text = List ℕ

pub nil≢cons : (x : ℕ) (xs : Text) → ¬ ([] ≡ x ∷ xs)
nil≢cons x xs e = cc

pub cons≢nil : (x : ℕ) (xs : Text) → ¬ (x ∷ xs ≡ [])
cons≢nil x xs e = cc

pub head_ne : (x y : ℕ) (xs ys : Text) → ¬ (x ≡ y) → ¬ (x ∷ xs ≡ y ∷ ys)
head_ne x y xs ys n e = n (cc)

pub tail_ne : (x y : ℕ) (xs ys : Text) → ¬ (xs ≡ ys) → ¬ (x ∷ xs ≡ y ∷ ys)
tail_ne x y xs ys n e = n (cc)

unfoldable pub text_dec : (s t : Text) → Dec (s ≡ t)
text_dec [] [] = yes refl
text_dec [] (y ∷ ys) = no (nil≢cons y ys)
text_dec (x ∷ xs) [] = no (cons≢nil x xs)
text_dec (x ∷ xs) (y ∷ ys) = elim (ℕ_discrete x y) [
  | yes p ↦ elim (text_dec xs ys) [ yes q ↦ yes (ap₂ ◌∷◌ p q) | no n ↦ no (tail_ne x y xs ys n) ]
  | no n ↦ no (head_ne x y xs ys n)
]

instance abbrev pub nat_eq : Equality ℕ
nat_eq = record { dec = ℕ_discrete }

instance abbrev pub text_eq : Equality Text
text_eq = record { dec = text_dec }
