-- ===== src/Sql/Tokens.antt =====
-- `Token` of crates/halephant-core/src/sql/lexer.rs.
use halephant.Prelude.{Text}

pub data Token : Type 0 where
  word : Text → Token
  quoted_ident : Text → Token
  literal : Text → Token
  number : Text → Token
  star lparen rparen other : Token
