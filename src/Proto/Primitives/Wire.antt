-- ===== src/Proto/Primitives/Wire.antt =====
-- The wire form of the values of crates/halephant-core/src/proto/primitives.rs, apart from the code,
-- and that the parsers take it.
use halephant.Prelude.Decoded.{IsScalar}
use halephant.Prelude.Utf8.{as_bytes}
use halephant.Prelude.{
  ℕ, ◌+◌, ◌/◌, ◌%◌, ◌≡◌, ◌++◌, ap, refl, ◌==◌, false, List, [], ◌∷◌, Option, none, some, Text,
  length, length-append, append_assoc, All, arith,
}
use halephant.Proto.Chumsky.{Outcome, ok, bind, Input}
use halephant.Proto.Types.{FormatCode}

abbrev pub be16 : ℕ → List ℕ
be16 n = n / 256 % 256 ∷ n % 256 ∷ []

abbrev pub be32 : ℕ → List ℕ
be32 n = n / 16777216 % 256 ∷ n / 65536 % 256 ∷ n / 256 % 256 ∷ n % 256 ∷ []

-- Text that a C string can hold.
abbrev pub IsCString : Text → Type 0
IsCString t = All IsScalar t × All (λ c. (c == 0) ≡ false) t

abbrev pub cstring : Text → List ℕ
cstring t = as_bytes t ++ 0 ∷ []

abbrev pub nullable_bytes : Option (List ℕ) → List ℕ
nullable_bytes none = 255 ∷ 255 ∷ 255 ∷ 255 ∷ []
nullable_bytes (some bytes) = be32 (length bytes) ++ bytes

abbrev pub each : {A : Type 0} → (A → List ℕ) → List A → List ℕ
each f [] = []
each f (x ∷ xs) = f x ++ each f xs

abbrev pub count_prefixed : {A : Type 0} → (A → List ℕ) → List A → List ℕ
count_prefixed f xs = be16 (length xs) ++ each f xs

abbrev pub code : FormatCode → ℕ
code FormatCode.text = 0
code FormatCode.binary = 1

-- Whatever comes behind, these bytes are taken, all of them and no more, and give this value.
abbrev pub Takes : {E A : Type 0} → (Input → Outcome E (A × Input)) → List ℕ → A → Type 0
Takes f w a =
    (at : ℕ) (tail : List ℕ)
    → f (record { at = at; left = w ++ tail }) ≡ ok (a, record { at = at + length w; left = tail })

pub Takes-done : {E A : Type 0} → (a : A) → Takes {E = E} {A = A} (λ i. ok (a, i)) [] a
Takes-done a at tail =
    let e : at ≡ at + 0 = omega arith in ap (λ n. ok (a, record { at = n; left = tail })) e

-- One part behind another.
pub Takes-bind :
    {E A B : Type 0}
    → (f : Input → Outcome E (A × Input)) (g : A → Input → Outcome E (B × Input)) (w v : List ℕ)
      (a : A) (b : B)
    → Takes f w a
    → Takes (g a) v b
    → Takes (λ i. bind (f i) (λ r. g r.0 r.1)) (w ++ v) b
Takes-bind f g w v a b h k at tail =
    let e : at + length w + length v ≡ at + (length w + length v) = omega arith in
    rw (append_assoc w v tail, h at (v ++ tail), k (at + length w) tail, e, length-append w v) refl

-- What is taken, changed by a function.
pub Takes-then :
    {E A B : Type 0}
    → (f : Input → Outcome E (A × Input)) (k : A → B) (w : List ℕ) (a : A) → Takes f w a
    → Takes (λ i. bind (f i) (λ r. ok (k r.0, r.1))) w (k a)
Takes-then f k w a h at tail = rw (h at tail) refl
