-- ===== src/Auth/Pgpass.antt =====
-- crates/halephant-core/src/auth/pgpass.rs. Reading the file is I/O: a file that cannot be read has
-- no entries.
pub mod Lines
use halephant.Prelude.Sets
use halephant.Prelude.{
  nat_eq, ◌&&◌, ℕ, ◌++◌, ◌==◌, Bool, true, false, not, List, [], ◌∷◌, Option, none, some, Text,
  text_dec, codes, ite, if◌then◌else◌, ltb, leb, length, find,
}
use halephant.Auth.Address.{split_host_port}

pub data Pattern : Type 0 where
  any : Pattern
  exact : Text → Pattern

unfoldable pub parse_pattern : Text → Pattern
parse_pattern s = ite (text_dec s (codes "*")) any (exact s)

unfoldable pub matches : Pattern → Text → Bool
matches any value = true
matches (exact v) value = ite (text_dec v value) true false

pub record Entry : Type 0 where
  pub hostname : Pattern
  pub port : Pattern
  pub database : Pattern
  pub username : Pattern
  pub password : Text

-- The loop of `parse_line` over the characters: the fields so far, the current one, and whether a
-- backslash came before.
unfoldable pub scan_fields : List Text → Text → Bool → Text → List Text
scan_fields fields current escaped [] = fields ++ current ∷ []
scan_fields fields current true (ch ∷ rest) = scan_fields fields (current ++ ch ∷ []) false rest
scan_fields fields current false (ch ∷ rest) =
    let escapes = scan_fields fields current true rest in
    let ends = scan_fields (fields ++ current ∷ []) [] false rest in
    let pushes = scan_fields fields (current ++ ch ∷ []) false rest in
    if ch == b'\\'
    then escapes
    else if ch == b':'
    then if ltb (length fields) 4 then ends else pushes
    else pushes

entry_of : List Text → Option Entry
entry_of (h ∷ p ∷ d ∷ u ∷ w ∷ []) = some (record {
  hostname = parse_pattern h;
  port = parse_pattern p;
  database = parse_pattern d;
  username = parse_pattern u;
  password = w;
})
entry_of _ = none

unfoldable pub parse_line : Text → Option Entry
unfolding entry_of
parse_line line = entry_of (scan_fields [] [] false line)

-- `lines`: split at each line feed, without the carriage return before it; nothing behind the last.
strip_cr : Text → Text
strip_cr [] = []
strip_cr (c ∷ []) = if c == 13 then [] else c ∷ []
strip_cr (c ∷ d ∷ rest) = c ∷ strip_cr (d ∷ rest)

last_line : Text → List Text
last_line [] = []
last_line (c ∷ line) = (c ∷ line) ∷ []

split_lines : Text → Text → List Text
unfolding strip_cr last_line
split_lines line [] = last_line line
split_lines line (c ∷ rest) =
    let ends = split_lines [] rest in
    let goes_on = split_lines (line ++ c ∷ []) rest in
    if c == 10 then strip_cr line ∷ ends else goes_on

-- The characters that `trim` takes for white space.
is_other_whitespace : ℕ → Bool
is_other_whitespace c =
    Sets.contains c (32 ∷ 133 ∷ 160 ∷ 5760 ∷ 8232 ∷ 8233 ∷ 8239 ∷ 8287 ∷ 12288 ∷ [])

is_whitespace : ℕ → Bool
unfolding is_other_whitespace
is_whitespace c =
    if leb 9 c && leb c 13
    then true
    else if leb 8192 c && leb c 8202
    then true
    else is_other_whitespace c

-- Neither blank nor a comment: the first character behind the white space decides.
unfoldable pub is_entry_line : Text → Bool
unfolding is_whitespace
is_entry_line [] = false
is_entry_line (c ∷ rest) =
    let later = is_entry_line rest in if is_whitespace c then later else not (c == b'#')

parse_lines : List Text → List Entry
parse_lines [] = []
parse_lines (line ∷ rest) =
    let later = parse_lines rest in
    if is_entry_line line
    then elim (parse_line line) [ some e ↦ e ∷ later | none ↦ later ]
    else later

unfoldable pub parse : Text → List Entry
unfolding split_lines parse_lines
parse content = parse_lines (split_lines [] content)

unfoldable pub entry_matches : Text → Text → Text → Text → Entry → Bool
entry_matches hostname port database username e =
    matches e.hostname hostname
    && (matches e.port port && (matches e.database database && matches e.username username))

unfoldable pub lookup : List Entry → Text → Text → Text → Text → Option Text
lookup entries hostname port database username =
    elim (find (entry_matches hostname port database username) entries) [
      | some e ↦ some e.password
      | none ↦ none
    ]

unfoldable pub lookup_addr : List Entry → Text → Text → Text → Option Text
lookup_addr entries addr database username =
    let (host, port) = split_host_port addr in lookup entries host port database username
