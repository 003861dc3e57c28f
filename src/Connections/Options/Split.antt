-- ===== src/Connections/Options/Split.antt =====
-- What PostgreSQL's split of the startup options makes of an escaped value.
use halephant.Connections.Options.{is_ascii_whitespace, escape}
use halephant.Prelude.{
  ℕ, ◌≡◌, ◌++◌, ◌==◌, ◌∙◌, refl, ap, sym, Bool, true, false, List, [], ◌∷◌, Option, none, some,
  Text, if◌then◌else◌, append_assoc, append-nil, arith, Bool-cases, inl, inr,
}

-- `isspace`, as PostgreSQL calls it: a space, or one of the five characters from tab to carriage
-- return, of which the vertical tab, 11, is not among Rust's.
pub isspace : ℕ → Bool
isspace c =
    if c == 32
    then true
    else if c == 9
    then true
    else if c == 10
    then true
    else if c == 11
    then true
    else if c == 12
    then true
    else c == 13

-- The text read so far of an argument, if one has begun.
abbrev pub so_far : Option Text → Text
so_far none = []
so_far (some t) = t

abbrev pub ended : Option Text → List Text
ended none = []
ended (some t) = t ∷ []

-- The arguments, after PostgreSQL's `pg_split_opts`: runs of white space separate, and a backslash
-- takes the next character as it is. The argument so far, and whether a backslash came before.
pub split : Option Text → Bool → Text → List Text
split current escaped [] = ended current
split current true (c ∷ rest) = split (some (so_far current ++ c ∷ [])) false rest
split current false (c ∷ rest) =
    let takes = split (some (so_far current)) true rest in
    let ends = split none false rest in
    let goes_on = split (some (so_far current ++ c ∷ [])) false rest in
    if c == b'\\' then takes else if isspace c then ended current ++ ends else goes_on

-- No vertical tab.
abbrev pub tabless : Text → Bool
tabless [] = true
tabless (c ∷ rest) = if c == 11 then false else tabless rest

not_isspace : (c : ℕ) → (c == 11) ≡ false → is_ascii_whitespace c ≡ false → isspace c ≡ false
unfolding isspace is_ascii_whitespace
not_isspace c h k = ground arith

split-plain :
    (current : Text) (c : ℕ) (rest : Text)
    → (c == b'\\') ≡ false
    → isspace c ≡ false
    → split (some current) false (c ∷ rest) ≡ split (some (current ++ c ∷ [])) false rest
unfolding split
split-plain current c rest e f = rw (e, f, split) refl

-- One character, escaped, is read back.
split-escape_one :
    (current : Text) (c : ℕ) (value rest : Text)
    → (c == 11) ≡ false
    → split (some current) false (escape (c ∷ value) ++ rest)
      ≡ split (some (current ++ c ∷ [])) false (escape value ++ rest)
unfolding split escape
split-escape_one current c value rest t = elim (Bool-cases (c == b'\\')) [
  | inl e ↦ let q : c ≡ 92 = ground arith in rw (q, escape, split) refl
  | inr e ↦ elim (Bool-cases (is_ascii_whitespace c)) [
    | inl f ↦ rw (e, f, escape, split) refl
    | inr f ↦ rw (e, f, escape) (split-plain current c (escape value ++ rest) e (not_isspace c t f))
  ]
]

-- Behind what was read of an argument, an escaped value without a vertical tab is read back whole,
-- and the split goes on after it, in the same argument.
pub split-escape :
    (current value rest : Text)
    → tabless value ≡ true
    → split (some current) false (escape value ++ rest) ≡ split (some (current ++ value)) false rest
unfolding escape
split-escape current [] rest h = ap (λ c. split (some c) false rest) (sym (append-nil current))
split-escape current (c ∷ s) rest h = elim (Bool-cases (c == 11)) [
  | inl e ↦ absurd (ground arith)
  | inr e ↦
      split-escape_one current c s rest e
      ∙ split-escape (current ++ c ∷ []) s rest (ground arith)
      ∙ ap (λ x. split (some x) false rest) (append_assoc current (c ∷ []) s)
]

-- At a vertical tab an escaped value is torn: what came before it ends its argument, and what comes
-- behind it is read as if an argument were yet to begin.
pub split-escape_torn :
    (current value later rest : Text)
    → tabless value ≡ true
    → split (some current) false (escape value ++ (escape (11 ∷ later) ++ rest))
      ≡ (current ++ value) ∷ split none false (escape later ++ rest)
unfolding escape split isspace is_ascii_whitespace
split-escape_torn current value later rest h =
    split-escape current value (escape (11 ∷ later) ++ rest) h
