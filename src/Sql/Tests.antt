-- ===== src/Sql/Tests.antt =====
-- Tests of the SQL classification on concrete token sequences.
use halephant.Prelude.{
  ◌≡◌, refl, Bool, true, false, [], ◌∷◌, none, some, Text, text_dec, ℕ_discrete, codes,
}
use halephant.Sql.Ast.{
  Statement, SetScope, SetValue, set, is_read_write_override, read_only_parameter,
}
use halephant.Sql.Cursor.{parse_transaction_options}
use halephant.Sql.Cursor.Options.{last_mode, parse_transaction_options-last_mode}
use halephant.Sql.Parser.{parse_statement}
use halephant.Sql.Parser.Print.{print, parse_statement-print}
use halephant.Sql.Parser.Override.{
  begins, override-last_mode, local, unquoted, to, quoted, override-set,
}
use halephant.Sql.Tokens.{Token, word, literal}

parse_transaction_options-last_mode_example :
    (parse_transaction_options (
      word (codes "read")
      ∷ word (codes "only")
      ∷ Token.other
      ∷ word (codes "read")
      ∷ word (codes "write")
      ∷ [])).read_only
    ≡ last_mode none (
        word (codes "read")
        ∷ word (codes "only")
        ∷ Token.other
        ∷ word (codes "read")
        ∷ word (codes "write")
        ∷ [])
parse_transaction_options-last_mode_example = parse_transaction_options-last_mode (
    word (codes "read")
    ∷ word (codes "only")
    ∷ Token.other
    ∷ word (codes "read")
    ∷ word (codes "write")
    ∷ [])

parse_statement-print_example :
    parse_statement
      (print (set SetScope.local (codes "search_path") (SetValue.literal (codes "a"))))
    ≡ set SetScope.local (codes "search_path") (SetValue.literal (codes "a"))
parse_statement-print_example =
    parse_statement-print (set SetScope.local (codes "search_path") (SetValue.literal (codes "a")))

override-last_mode_example :
    is_read_write_override
      (parse_statement (word (codes "begin") ∷ word (codes "read") ∷ word (codes "write") ∷ []))
    ≡ true
unfolding text_dec ℕ_discrete halephant.Sql.Cursor.read_mode halephant.Sql.Cursor.is_word
    halephant.Sql.Ast.as_boolean halephant.Prelude.Sets.contains
override-last_mode_example =
    override-last_mode (word (codes "read") ∷ word (codes "write") ∷ []) begins

override-set_example :
    is_read_write_override (
      parse_statement (
        word (codes "set")
        ∷ word (codes "local")
        ∷ word read_only_parameter
        ∷ word (codes "to")
        ∷ literal (codes "off")
        ∷ []))
    ≡ true
unfolding text_dec ℕ_discrete halephant.Sql.Cursor.read_mode halephant.Sql.Cursor.is_word
    halephant.Sql.Ast.as_boolean halephant.Prelude.Sets.contains
override-set_example = override-set [] local unquoted to (quoted (codes "off") refl)
