-- ===== src/Sql/Parser.antt =====
-- The statements of crates/halephant-core/src/sql/parser.rs. Each function takes the tokens
-- behind its keyword.
pub mod Print
pub mod Override
use halephant.Prelude.{
  ℕ, zero, suc, ◌-◌, List, [], ◌∷◌, Option, none, some, Text, text_dec, ite, codes,
}
use halephant.Sql.Ast.{
  UnlistenTarget, Statement, listen, unlisten, begin, commit, rollback, select, insert, update,
  delete, copy,
}
use halephant.Sql.Cursor.{eat_word, eat_identifier, parse_transaction_options}
use halephant.Sql.Settings.{parse_set, parse_reset, parse_discard, parse_deallocate}
use halephant.Sql.Tokens.{Token, word, quoted_ident, star, lparen, rparen}

unfoldable pub parse_listen : List Token → Statement
unfolding eat_identifier
parse_listen cur = elim (eat_identifier cur) [
  | some (channel, _) ↦ listen channel
  | none ↦ Statement.other
]

unfoldable pub parse_unlisten : List Token → Statement
parse_unlisten (star ∷ _) = unlisten UnlistenTarget.star
parse_unlisten (word name ∷ _) = unlisten (UnlistenTarget.channel name)
parse_unlisten (quoted_ident name ∷ _) = unlisten (UnlistenTarget.channel name)
parse_unlisten _ = Statement.other

-- Behind `START`, and behind `BEGIN`.
unfoldable pub parse_start : List Token → Statement
unfolding eat_word parse_transaction_options
parse_start cur = elim (eat_word (codes "transaction") cur) [
  | none ↦ Statement.other
  | some modes ↦ begin (parse_transaction_options modes)
]

unfoldable pub parse_begin : List Token → Statement
unfolding eat_word parse_transaction_options
parse_begin cur = elim (eat_word (codes "work") cur) [
  | some modes ↦ begin (parse_transaction_options modes)
  | none ↦ elim (eat_word (codes "transaction") cur) [
    | some modes ↦ begin (parse_transaction_options modes)
    | none ↦ begin (parse_transaction_options cur)
  ]
]

-- The statement behind a `WITH`, by its keyword.
wrapped_statement : Text → Option Statement
wrapped_statement w = ite (text_dec w (codes "select")) (some select) (
    ite (text_dec w (codes "table")) (some select) (
      ite (text_dec w (codes "values")) (some select) (
        ite (text_dec w (codes "insert")) (some insert) (
          ite (text_dec w (codes "update")) (some update) (
            ite (text_dec w (codes "delete")) (some delete)
              (ite (text_dec w (codes "truncate")) (some delete) none))))))

-- `depth` is a `u32`; a query with 2 ^ 32 open parentheses is not reached.
scan_cte : ℕ → List Token → Statement
scan_cte depth [] = Statement.other
scan_cte depth (lparen ∷ rest) = scan_cte (suc depth) rest
scan_cte depth (rparen ∷ rest) = scan_cte (depth - 1) rest
scan_cte zero (word w ∷ rest) = elim (wrapped_statement w) [
  | some statement ↦ statement
  | none ↦ scan_cte zero rest
]
scan_cte (suc depth) (word w ∷ rest) = scan_cte (suc depth) rest
scan_cte depth (_ ∷ rest) = scan_cte depth rest

unfoldable pub parse_cte_wrapped : List Token → Statement
unfolding scan_cte wrapped_statement
parse_cte_wrapped = scan_cte 0

-- The keywords that need no look at what follows, and `WITH`.
parse_plain : Text → List Token → Statement
parse_plain first cur = ite (text_dec first (codes "commit")) commit (
    ite (text_dec first (codes "end")) commit (
      ite (text_dec first (codes "rollback")) rollback (
        ite (text_dec first (codes "abort")) rollback (
          ite (text_dec first (codes "select")) select (
            ite (text_dec first (codes "table")) select (
              ite (text_dec first (codes "values")) select (
                ite (text_dec first (codes "insert")) insert (
                  ite (text_dec first (codes "update")) update (
                    ite (text_dec first (codes "delete")) delete (
                      ite (text_dec first (codes "truncate")) delete (
                        ite (text_dec first (codes "copy")) copy (
                          ite (text_dec first (codes "with")) (parse_cte_wrapped cur)
                            Statement.other))))))))))))

-- The `match` on the first word.
unfoldable pub parse_keyword : Text → List Token → Statement
unfolding parse_plain parse_listen parse_unlisten parse_set parse_reset parse_discard
    parse_deallocate parse_begin parse_start parse_cte_wrapped
parse_keyword first cur = ite (text_dec first (codes "listen")) (parse_listen cur) (
    ite (text_dec first (codes "unlisten")) (parse_unlisten cur) (
      ite (text_dec first (codes "set")) (parse_set cur) (
        ite (text_dec first (codes "reset")) (parse_reset cur) (
          ite (text_dec first (codes "discard")) (parse_discard cur) (
            ite (text_dec first (codes "deallocate")) (parse_deallocate cur) (
              ite (text_dec first (codes "begin")) (parse_begin cur) (
                ite (text_dec first (codes "start")) (parse_start cur)
                  (parse_plain first cur))))))))

unfoldable pub parse_statement : List Token → Statement
unfolding parse_keyword
parse_statement (word first ∷ cur) = parse_keyword first cur
parse_statement _ = Statement.other
