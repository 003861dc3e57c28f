-- ===== src/Connections/Options.antt =====
-- crates/halephant-core/src/connections/options.rs. PostgreSQL splits the options at white space that
-- no backslash precedes.
pub mod Split
use halephant.Prelude.{ℕ, ◌==◌, Bool, true, false, List, [], ◌∷◌, Text, if◌then◌else◌}

-- Tab, line feed, form feed, carriage return and space.
unfoldable pub is_ascii_whitespace : ℕ → Bool
is_ascii_whitespace c =
    if c == 32
    then true
    else if c == 9
    then true
    else if c == 10
    then true
    else if c == 12
    then true
    else c == 13

unfoldable pub escape : Text → Text
unfolding is_ascii_whitespace
escape [] = []
escape (ch ∷ rest) =
    let out = ch ∷ escape rest in
    if ch == b'\\' then b'\\' ∷ out else if is_ascii_whitespace ch then b'\\' ∷ out else out
