-- ===== src/Sql/Parser/Override.antt =====
-- Which token sequences are caught as attempts to leave read-only mode, and which are routed to a
-- replica.
use halephant.Prelude.{
  ◌≡◌, ◌++◌, refl, sym, ap, ◌∙◌, Bool, true, false, List, [], ◌∷◌, none, Text, text_dec, ℕ_discrete,
  codes, if_neg, Bool-cases, inl, inr,
}
use halephant.Sql.Ast.{
  SetScope, is_some_false, is_read_write_override, as_boolean, read_only_parameter,
}
use halephant.Sql.Cursor.{read_mode, is_word, eat_word, parse_transaction_options}
use halephant.Sql.Cursor.Options.{word_of_is_word, last_mode, parse_transaction_options-last_mode}
use halephant.Sql.Parser.{parse_statement, parse_begin}
use halephant.Sql.Settings.{set_parameter}
use halephant.Sql.Tokens.{Token, word, quoted_ident, literal, number}

-- The forms that end in a list of transaction modes, up to that list.
pub data ModePrefix : List Token → Type 0 where
  begins : ModePrefix (word (codes "begin") ∷ [])
  begins_work : ModePrefix (word (codes "begin") ∷ word (codes "work") ∷ [])
  begins_transaction : ModePrefix (word (codes "begin") ∷ word (codes "transaction") ∷ [])
  starts : ModePrefix (word (codes "start") ∷ word (codes "transaction") ∷ [])
  sets : ModePrefix (word (codes "set") ∷ word (codes "transaction") ∷ [])
  sets_session : ModePrefix (
      word (codes "set")
      ∷ word (codes "session")
      ∷ word (codes "characteristics")
      ∷ word (codes "as")
      ∷ word (codes "transaction")
      ∷ [])

-- `WORK` and `TRANSACTION` begin no mode, so the scan passes over them.
last_mode-passed :
    (t : Token) (ts : List Token)
    → is_word (codes "read") t ≡ false
    → last_mode none (t ∷ ts) ≡ last_mode none ts
unfolding read_mode
last_mode-passed t [] h = refl
last_mode-passed t (next ∷ ts) h = rw h refl

work_passed : (t : Token) → is_word (codes "work") t ≡ true → is_word (codes "read") t ≡ false
work_passed t h =
    rw (word_of_is_word (codes "work") t h) (unfold is_word text_dec ℕ_discrete in refl)

transaction_passed :
    (t : Token) → is_word (codes "transaction") t ≡ true → is_word (codes "read") t ≡ false
transaction_passed t h =
    rw (word_of_is_word (codes "transaction") t h) (unfold is_word text_dec ℕ_discrete in refl)

-- Modes behind a word that is passed over.
passed-last_mode :
    (t : Token) (ts : List Token)
    → is_word (codes "read") t ≡ false
    → is_some_false (parse_transaction_options ts).read_only
      ≡ is_some_false (last_mode none (t ∷ ts))
passed-last_mode t ts h =
    ap is_some_false (parse_transaction_options-last_mode ts ∙ sym (last_mode-passed t ts h))

-- `BEGIN`, bare or with `WORK` or `TRANSACTION`.
parse_begin-last_mode :
    (ts : List Token) → is_read_write_override (parse_begin ts) ≡ is_some_false (last_mode none ts)
unfolding parse_begin eat_word is_read_write_override
parse_begin-last_mode [] = ap is_some_false (parse_transaction_options-last_mode [])
parse_begin-last_mode (t ∷ ts) = elim (Bool-cases (is_word (codes "work") t)) [
  | inl p ↦ rw (p, parse_begin, eat_word) (passed-last_mode t ts (work_passed t p))
  | inr p ↦ elim (Bool-cases (is_word (codes "transaction") t)) [
    | inl q ↦ rw (p, q, parse_begin, eat_word) (passed-last_mode t ts (transaction_passed t q))
    | inr q ↦
        rw (p, q, parse_begin, eat_word)
          (ap is_some_false (parse_transaction_options-last_mode (t ∷ ts)))
  ]
]

-- In each of the six forms that end in a list of transaction modes, the statement counts as an
-- override exactly if the last `READ ONLY` or `READ WRITE` behind the prefix is `READ WRITE`.
pub override-last_mode :
    {prefix : List Token} (ts : List Token)
    → ModePrefix prefix
    → is_read_write_override (parse_statement (prefix ++ ts)) ≡ is_some_false (last_mode none ts)
unfolding parse_statement is_read_write_override text_dec ℕ_discrete
override-last_mode ts begins = parse_begin-last_mode ts
override-last_mode ts begins_work = ap is_some_false (parse_transaction_options-last_mode ts)
override-last_mode ts begins_transaction = ap is_some_false (parse_transaction_options-last_mode ts)
override-last_mode ts starts = ap is_some_false (parse_transaction_options-last_mode ts)
override-last_mode ts sets = ap is_some_false (parse_transaction_options-last_mode ts)
override-last_mode ts sets_session = ap is_some_false (parse_transaction_options-last_mode ts)

pub data SetPrefix : List Token → Type 0 where
  plain : SetPrefix (word (codes "set") ∷ [])
  session : SetPrefix (word (codes "set") ∷ word (codes "session") ∷ [])
  local : SetPrefix (word (codes "set") ∷ word (codes "local") ∷ [])

-- The parameter, as a word or in double quotes.
pub data Named : Token → Type 0 where
  unquoted : Named (word read_only_parameter)
  double_quoted : Named (quoted_ident read_only_parameter)

pub data Assign : Token → Type 0 where
  to : Assign (word (codes "to"))
  equals : Assign Token.other

-- The tokens of a value, with whether it turns read-only mode off.
pub data Value (off : Bool) : List Token → Type 0 where
  to_default : off ≡ true → Value off (word (codes "default") ∷ [])
  bare :
      (w : Text)
      → ¬ (w ≡ codes "default")
      → off ≡ is_some_false (as_boolean w)
      → Value off (word w ∷ [])
  quoted : (v : Text) → off ≡ is_some_false (as_boolean v) → Value off (literal v ∷ [])
  numeric : (v : Text) → off ≡ is_some_false (as_boolean v) → Value off (number v ∷ [])
  signed : (v : Text) → off ≡ is_some_false (as_boolean v) → Value off (Token.other ∷ number v ∷ [])

-- The statement behind the parameter's name.
assigned-override :
    {off : Bool} {value : List Token} {sep : Token} (scope : SetScope) (rest : List Token)
    → Assign sep
    → Value off value
    → is_read_write_override
        (set_parameter scope (quoted_ident read_only_parameter ∷ sep ∷ (value ++ rest)))
      ≡ off
unfolding set_parameter is_read_write_override text_dec ℕ_discrete
assigned-override scope rest to (to_default e) = sym e
assigned-override scope rest to (bare w h e) = rw (if_neg _ h) (sym e)
assigned-override scope rest to (quoted v e) = sym e
assigned-override scope rest to (numeric v e) = sym e
assigned-override scope rest to (signed v e) = sym e
assigned-override scope rest equals (to_default e) = sym e
assigned-override scope rest equals (bare w h e) = rw (if_neg _ h) (sym e)
assigned-override scope rest equals (quoted v e) = sym e
assigned-override scope rest equals (numeric v e) = sym e
assigned-override scope rest equals (signed v e) = sym e

set_parameter-override :
    {off : Bool} {value : List Token} {name sep : Token} (scope : SetScope) (rest : List Token)
    → Named name
    → Assign sep
    → Value off value
    → is_read_write_override (set_parameter scope (name ∷ sep ∷ (value ++ rest))) ≡ off
unfolding set_parameter is_read_write_override text_dec ℕ_discrete
set_parameter-override scope rest unquoted a v = assigned-override scope rest a v
set_parameter-override scope rest double_quoted a v = assigned-override scope rest a v

-- Every `SET [SESSION | LOCAL] default_transaction_read_only`, the name in double quotes or not, with
-- `=` or `TO` and one of the value forms counts as an override exactly if the value turns read-only
-- mode off.
pub override-set :
    {off : Bool} {prefix value : List Token} {name sep : Token} (rest : List Token)
    → SetPrefix prefix
    → Named name
    → Assign sep
    → Value off value
    → is_read_write_override (parse_statement (prefix ++ (name ∷ sep ∷ (value ++ rest)))) ≡ off
unfolding parse_statement text_dec ℕ_discrete
override-set rest plain unquoted a v = set_parameter-override SetScope.session rest unquoted a v
override-set rest plain double_quoted a v =
    set_parameter-override SetScope.session rest double_quoted a v
override-set rest session unquoted a v = set_parameter-override SetScope.session rest unquoted a v
override-set rest session double_quoted a v =
    set_parameter-override SetScope.session rest double_quoted a v
override-set rest local n a v = set_parameter-override SetScope.local rest n a v
