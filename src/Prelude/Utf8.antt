-- ===== src/Prelude/Utf8.antt =====
-- Text as bytes and back: `str::as_bytes` and `String::from_utf8` of Rust's standard library.
use Prim.Native.Nat.{ℕ, zero, suc, ◌+◌, ◌-◌, ◌*◌, ◌/◌, ◌%◌}
use mathlib.Core.Bool.{◌&&◌}
use mathlib.Core.Option.{Option, none, some}
use mathlib.Core.List.{List, [], ◌∷◌, ◌++◌}
use halephant.Prelude.Tests.{ltb, leb, if◌then◌else◌}

-- The bytes of one character.
unfoldable pub encode_char : ℕ → List ℕ
encode_char c =
    if ltb c 0x80
    then c ∷ []
    else if ltb c 0x800
    then (0xc0 + c / 64) ∷ (0x80 + c % 64) ∷ []
    else if ltb c 0x10000
    then (0xe0 + c / 4096) ∷ (0x80 + c / 64 % 64) ∷ (0x80 + c % 64) ∷ []
    else (0xf0 + c / 262144) ∷ (0x80 + c / 4096 % 64) ∷ (0x80 + c / 64 % 64) ∷ (0x80 + c % 64) ∷ []

unfoldable pub as_bytes : List ℕ → List ℕ
unfolding encode_char
as_bytes [] = []
as_bytes (c ∷ cs) = encode_char c ++ as_bytes cs

-- Within a character: how many bytes are missing after the next, the value so far, and the bounds of
-- the next byte.
pub record Pending : Type 0 where
  pub missing : ℕ
  pub value : ℕ
  pub low : ℕ
  pub high : ℕ

-- A byte is refused, it ends a character, or more bytes are needed.
pub data Reading : Type 0 where
  refused : Reading
  ends : ℕ → Reading
  more : Pending → Reading

-- The first byte of a character. Overlong forms, surrogates and values past U+10FFFF are refused.
unfoldable pub lead : ℕ → Reading
lead b =
    if ltb b 0x80
    then ends b
    else if ltb b 0xc2
    then refused
    else if ltb b 0xe0
    then more (record { missing = 0; value = b - 0xc0; low = 0x80; high = 0xc0 })
    else if ltb b 0xf0
    then more (record {
      missing = 1;
      value = b - 0xe0;
      low = if ltb b 0xe1 then 0xa0 else 0x80;
      high = if ltb b 0xed then 0xc0 else if ltb b 0xee then 0xa0 else 0xc0;
    })
    else if ltb b 0xf5
    then more (record {
      missing = 2;
      value = b - 0xf0;
      low = if ltb b 0xf1 then 0x90 else 0x80;
      high = if ltb b 0xf4 then 0xc0 else 0x90;
    })
    else refused

unfoldable pub advance : ℕ → ℕ → Reading
advance zero value = ends value
advance (suc n) value = more (record { missing = n; value = value; low = 0x80; high = 0xc0 })

unfoldable pub continue : Pending → ℕ → Reading
unfolding advance
continue p b =
    if leb p.low b && ltb b p.high then advance p.missing (p.value * 64 + (b - 0x80)) else refused

unfoldable pub cons_char : ℕ → Option (List ℕ) → Option (List ℕ)
cons_char c none = none
cons_char c (some cs) = some (c ∷ cs)

-- What follows a byte.
unfoldable pub decode : Reading → List ℕ → Option (List ℕ)
unfolding lead continue cons_char
decode refused bs = none
decode (ends c) [] = some (c ∷ [])
decode (ends c) (b ∷ bs) = cons_char c (decode (lead b) bs)
decode (more p) [] = none
decode (more p) (b ∷ bs) = decode (continue p b) bs

unfoldable pub from_utf8 : List ℕ → Option (List ℕ)
unfolding decode lead
from_utf8 [] = some []
from_utf8 (b ∷ bs) = decode (lead b) bs
