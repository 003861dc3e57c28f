-- ===== src/Prelude/Decoded.antt =====
-- Text survives its bytes.
use Prim.Native.Nat.{ℕ, ◌+◌, ◌*◌, ◌/◌, ◌%◌, ◌<◌, ◌≤◌}
use mathlib.Core.Bool.{true, false}
use mathlib.Core.List.{List, [], ◌∷◌, ◌++◌}
use mathlib.Core.Logic.{◌⊎◌, inl, inr}
use mathlib.Core.Option.{some}
use mathlib.Core.Path.{◌≡◌, ap, refl}
use native.Mathlib.Omega.{arith}
use halephant.Prelude.Lists.{All, All-append}
use halephant.Prelude.Tests.{Bool-cases, ltb→lt, ◌==◌, ltb, if◌then◌else◌}
use halephant.Prelude.Utf8.{
  encode_char, as_bytes, Pending, ends, more, lead, advance, continue, cons_char, decode, from_utf8,
}

-- A Unicode scalar value: no surrogate, and at most U+10FFFF.
abbrev pub IsScalar : ℕ → Type 0
IsScalar c = (c < 0xd800) ⊎ ((0xe000 ≤ c) × (c < 0x110000))

lead-1 : (c : ℕ) → c < 0x80 → lead c ≡ ends c
unfolding lead
lead-1 c h = ground arith

lead-2 :
    (v : ℕ)
    → 2 ≤ v
    → v < 32
    → lead (0xc0 + v) ≡ more (record { missing = 0; value = v; low = 0x80; high = 0xc0 })
unfolding lead
lead-2 v h k = ground arith

lead-3 :
    (v : ℕ)
    → v < 16
    → lead (0xe0 + v)
      ≡ more (record {
        missing = 1;
        value = v;
        low = if ltb v 1 then 0xa0 else 0x80;
        high = if ltb v 13 then 0xc0 else if ltb v 14 then 0xa0 else 0xc0;
      })
unfolding lead
lead-3 v h = ground arith

lead-4 :
    (v : ℕ)
    → v < 5
    → lead (0xf0 + v)
      ≡ more (record {
        missing = 2;
        value = v;
        low = if ltb v 1 then 0x90 else 0x80;
        high = if ltb v 4 then 0xc0 else 0x90;
      })
unfolding lead
lead-4 v h = ground arith

continue-within :
    (p : Pending) (b : ℕ)
    → p.low ≤ 0x80 + b
    → 0x80 + b < p.high
    → continue p (0x80 + b) ≡ advance p.missing (p.value * 64 + b)
unfolding continue
continue-within p b h k = ground arith

decode-ends : (c : ℕ) (bs : List ℕ) → decode (ends c) bs ≡ cons_char c (from_utf8 bs)
unfolding decode from_utf8 cons_char
decode-ends c [] = refl
decode-ends c (b ∷ bs) = refl

join-2 : (c : ℕ) → c / 64 * 64 + c % 64 ≡ c
join-2 c = omega arith

join-3 : (c : ℕ) → (c / 4096 * 64 + c / 64 % 64) * 64 + c % 64 ≡ c
join-3 c = omega arith

join-4 : (c : ℕ) → ((c / 262144 * 64 + c / 4096 % 64) * 64 + c / 64 % 64) * 64 + c % 64 ≡ c
join-4 c = omega arith

decode-more :
    (p : Pending) (b : ℕ) (bs : List ℕ)
    → p.low ≤ 0x80 + b
    → 0x80 + b < p.high
    → decode (more p) ((0x80 + b) ∷ bs) ≡ decode (advance p.missing (p.value * 64 + b)) bs
unfolding decode
decode-more p b bs h k = ap (λ r. decode r bs) (continue-within p b h k)

decode-2 :
    (c : ℕ) (rest : List ℕ)
    → 0x80 ≤ c
    → c < 0x800
    → from_utf8 ((0xc0 + c / 64) ∷ (0x80 + c % 64) ∷ rest) ≡ cons_char c (from_utf8 rest)
unfolding from_utf8 decode advance
decode-2 c rest h k =
    rw
      (
        lead-2 (c / 64) (omega arith) (omega arith),
        decode-more (record { missing = 0; value = c / 64; low = 0x80; high = 0xc0 }) (c % 64) rest
            (omega arith) (omega arith),
        join-2 c,
      )
      (decode-ends c rest)

decode-3 :
    (c : ℕ) (rest : List ℕ)
    → 0x800 ≤ c
    → c < 0x10000
    → IsScalar c
    → from_utf8 ((0xe0 + c / 4096) ∷ (0x80 + c / 64 % 64) ∷ (0x80 + c % 64) ∷ rest)
      ≡ cons_char c (from_utf8 rest)
unfolding from_utf8 decode advance
decode-3 c rest h k s =
    rw
      (
        lead-3 (c / 4096) (omega arith),
        decode-more
            (record {
              missing = 1;
              value = c / 4096;
              low = if ltb (c / 4096) 1 then 0xa0 else 0x80;
              high = if ltb (c / 4096) 13 then 0xc0 else if ltb (c / 4096) 14 then 0xa0 else 0xc0;
            })
            (c / 64 % 64) ((0x80 + c % 64) ∷ rest) (ground arith) (ground arith),
        decode-more
            (record { missing = 0; value = c / 4096 * 64 + c / 64 % 64; low = 0x80; high = 0xc0 })
            (c % 64) rest (omega arith) (omega arith),
        join-3 c,
      )
      (decode-ends c rest)

decode-4 :
    (c : ℕ) (rest : List ℕ)
    → 0x10000 ≤ c
    → c < 0x110000
    → from_utf8 (
        (0xf0 + c / 262144)
        ∷ (0x80 + c / 4096 % 64)
        ∷ (0x80 + c / 64 % 64)
        ∷ (0x80 + c % 64)
        ∷ rest)
      ≡ cons_char c (from_utf8 rest)
unfolding from_utf8 decode advance
decode-4 c rest h k =
    rw
      (
        lead-4 (c / 262144) (omega arith),
        decode-more
            (record {
              missing = 2;
              value = c / 262144;
              low = if ltb (c / 262144) 1 then 0x90 else 0x80;
              high = if ltb (c / 262144) 4 then 0xc0 else 0x90;
            })
            (c / 4096 % 64) ((0x80 + c / 64 % 64) ∷ (0x80 + c % 64) ∷ rest) (ground arith)
            (ground arith),
        decode-more
            (record {
              missing = 1;
              value = c / 262144 * 64 + c / 4096 % 64;
              low = 0x80;
              high = 0xc0;
            })
            (c / 64 % 64) ((0x80 + c % 64) ∷ rest) (omega arith) (omega arith),
        decode-more
            (record {
              missing = 0;
              value = (c / 262144 * 64 + c / 4096 % 64) * 64 + c / 64 % 64;
              low = 0x80;
              high = 0xc0;
            })
            (c % 64) rest (omega arith) (omega arith),
        join-4 c,
      )
      (decode-ends c rest)

decode-1 :
    (c : ℕ) (rest : List ℕ)
    → ltb c 0x80 ≡ true
    → from_utf8 (c ∷ rest) ≡ cons_char c (from_utf8 rest)
unfolding from_utf8
decode-1 c rest e = rw (lead-1 c (ltb→lt c 0x80 e)) (decode-ends c rest)

decode-encode_char :
    (c : ℕ) (rest : List ℕ)
    → IsScalar c
    → from_utf8 (encode_char c ++ rest) ≡ cons_char c (from_utf8 rest)
unfolding encode_char
decode-encode_char c rest s = elim (Bool-cases (ltb c 0x80)) [
  | inl e ↦ rw e (decode-1 c rest e)
  | inr e ↦ elim (Bool-cases (ltb c 0x800)) [
    | inl f ↦ rw (e, f) (decode-2 c rest (ground arith) (ground arith))
    | inr f ↦ elim (Bool-cases (ltb c 0x10000)) [
      | inl g ↦ rw (e, f, g) (decode-3 c rest (ground arith) (ground arith) s)
      | inr g ↦ rw (e, f, g) (decode-4 c rest (ground arith) (ground arith))
    ]
  ]
]

pub from_utf8-as_bytes : (cs : List ℕ) → All IsScalar cs → from_utf8 (as_bytes cs) ≡ some cs
unfolding as_bytes cons_char from_utf8
from_utf8-as_bytes [] h = refl
from_utf8-as_bytes (c ∷ cs) h =
    rw (decode-encode_char c (as_bytes cs) h.0, from_utf8-as_bytes cs h.1) refl

encode_char-nonzero : (c : ℕ) → (c == 0) ≡ false → All (λ b. (b == 0) ≡ false) (encode_char c)
unfolding encode_char
encode_char-nonzero c h = elim (Bool-cases (ltb c 0x80)) [
  | inl e ↦ rw e (h, tt)
  | inr e ↦ elim (Bool-cases (ltb c 0x800)) [
    | inl f ↦ rw (e, f) (ground arith, (ground arith, tt))
    | inr f ↦ elim (Bool-cases (ltb c 0x10000)) [
      | inl g ↦ rw (e, f, g) (ground arith, (ground arith, (ground arith, tt)))
      | inr g ↦ rw (e, f, g) (ground arith, (ground arith, (ground arith, (ground arith, tt))))
    ]
  ]
]

-- A text without the character 0 has no byte 0.
pub as_bytes-nonzero :
    (cs : List ℕ) → All (λ c. (c == 0) ≡ false) cs → All (λ b. (b == 0) ≡ false) (as_bytes cs)
unfolding as_bytes
as_bytes-nonzero [] h = tt
as_bytes-nonzero (c ∷ cs) h =
    All-append _ (encode_char c) (as_bytes cs) (encode_char-nonzero c h.0) (as_bytes-nonzero cs h.1)
