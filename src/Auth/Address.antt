-- ===== src/Auth/Address.antt =====
-- crates/halephant-core/src/addr/split_addr.rs.
pub mod Forms
use halephant.Prelude.{
  ℕ, ◌==◌, Bool, true, false, List, [], ◌∷◌, Option, none, some, Text, codes, if◌then◌else◌,
}

-- `contains` for a character.
unfoldable pub has_char : ℕ → Text → Bool
has_char c [] = false
has_char c (x ∷ xs) = if x == c then true else has_char c xs

-- `split_once("]:")`.
after_bracket : Text → Option Text
after_bracket [] = none
after_bracket (c ∷ rest) = if c == b':' then some rest else none

prepend : ℕ → Option (Text × Text) → Option (Text × Text)
prepend c none = none
prepend c (some (host, port)) = some (c ∷ host, port)

unfoldable pub split_bracket : Text → Option (Text × Text)
unfolding after_bracket prepend
split_bracket [] = none
split_bracket (c ∷ rest) =
    let later = prepend c (split_bracket rest) in
    if c == b']'
    then elim (after_bracket rest) [ some port ↦ some ([], port) | none ↦ later ]
    else later

-- `trim_end_matches(']')`.
cons_trimmed : ℕ → Text → Text
cons_trimmed c [] = if c == b']' then [] else c ∷ []
cons_trimmed c (x ∷ xs) = c ∷ x ∷ xs

unfoldable pub trim_brackets : Text → Text
unfolding cons_trimmed
trim_brackets [] = []
trim_brackets (c ∷ rest) = cons_trimmed c (trim_brackets rest)

-- The text split at its last colon (`rfind`).
unfoldable pub split_last : Text → Option (Text × Text)
unfolding prepend
split_last [] = none
split_last (c ∷ rest) =
    let later = split_last rest in
    elim later [
      | some (host, port) ↦ some (c ∷ host, port)
      | none ↦ if c == b':' then some ([], rest) else none
    ]

abbrev pub default_port : Text
default_port = codes "5432"

split_plain : Text → Text × Text
split_plain addr = elim (split_last addr) [
  | none ↦ (addr, default_port)
  | some (host, port) ↦ if has_char b':' host then (addr, default_port) else (host, port)
]

split_bracketed : Text → Text × Text
split_bracketed rest = elim (split_bracket rest) [
  | some (host, port) ↦ (host, port)
  | none ↦ (trim_brackets rest, default_port)
]

unfoldable pub split_host_port : Text → Text × Text
unfolding split_plain split_bracketed
split_host_port [] = split_plain []
split_host_port (c ∷ rest) = if c == b'[' then split_bracketed rest else split_plain (c ∷ rest)
