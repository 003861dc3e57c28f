-- ===== src/Sql/Cursor.antt =====
-- The cursor of crates/halephant-core/src/sql/parser.rs and its scan for transaction modes. The
-- cursor is the list of the tokens from its position on: `peek` is the head, `advance` the tail.
pub mod Options
use halephant.Prelude.{
  Bool, true, false, List, [], ◌∷◌, Option, none, some, Text, text_dec, ite, if◌then◌else◌, codes,
}
use halephant.Sql.Ast.{TransactionOptions}
use halephant.Sql.Tokens.{Token, word, quoted_ident}

-- `Some(Token::Word(w)) if w == expected`.
unfoldable pub is_word : Text → Token → Bool
is_word expected (word w) = ite (text_dec w expected) true false
is_word expected _ = false

unfoldable pub eat_word : Text → List Token → Option (List Token)
unfolding is_word
eat_word expected [] = none
eat_word expected (t ∷ rest) = if is_word expected t then some rest else none

unfoldable pub eat_identifier : List Token → Option (Text × List Token)
eat_identifier (word name ∷ rest) = some (name, rest)
eat_identifier (quoted_ident name ∷ rest) = some (name, rest)
eat_identifier _ = none

-- The mode that a token and the one behind it spell: `READ ONLY` or `READ WRITE`.
unfoldable pub read_mode : Token → Token → Option Bool
read_mode t next =
    if is_word (codes "read") t
    then if is_word (codes "only") next
      then some true
      else if is_word (codes "write") next
      then some false
      else none
    else none

scan_options : TransactionOptions → List Token → TransactionOptions
scan_options opts [] = opts
scan_options opts (t ∷ []) = opts
scan_options opts (t ∷ next ∷ rest) = elim (read_mode t next) [
  | some mode ↦ scan_options (record opts { read_only = some mode }) rest
  | none ↦ scan_options opts (next ∷ rest)
]

unfoldable pub parse_transaction_options : List Token → TransactionOptions
unfolding scan_options read_mode is_word
parse_transaction_options = scan_options (record { read_only = none })
