-- ===== src/Sql/Settings.antt =====
-- `SET`, `RESET`, `DISCARD` and `DEALLOCATE` in crates/halephant-core/src/sql/parser.rs. Each
-- function takes the tokens behind its keyword.
use halephant.Prelude.{List, ◌∷◌, Option, none, some, Text, text_dec, ite, codes}
use halephant.Sql.Ast.{
  SetScope, SetValue, ResetTarget, DiscardTarget, DeallocateTarget, Statement, set, set_transaction,
  reset, discard, deallocate,
}
use halephant.Sql.Cursor.{eat_word, eat_identifier, parse_transaction_options}
use halephant.Sql.Tokens.{Token, word, quoted_ident, number}

-- The value of a `SET`; the sign of a number is a token of its own and is dropped.
unfoldable pub set_value : List Token → Option SetValue
set_value (word w ∷ _) =
    some (ite (text_dec w (codes "default")) SetValue.default (SetValue.literal w))
set_value (Token.literal v ∷ _) = some (SetValue.literal v)
set_value (number v ∷ _) = some (SetValue.literal v)
set_value (Token.other ∷ number v ∷ _) = some (SetValue.literal v)
set_value _ = none

-- `=` (any token of no kind of its own) or `TO`.
unfoldable pub eat_assign : List Token → Option (List Token)
eat_assign (word w ∷ rest) = ite (text_dec w (codes "to")) (some rest) none
eat_assign (Token.other ∷ rest) = some rest
eat_assign _ = none

unfoldable pub set_parameter : SetScope → List Token → Statement
unfolding eat_identifier eat_assign set_value
set_parameter scope cur = elim (eat_identifier cur) [
  | none ↦ Statement.other
  | some (parameter, rest) ↦ elim (eat_assign rest) [
    | none ↦ Statement.other
    | some behind ↦ elim (set_value behind) [
      | none ↦ Statement.other
      | some value ↦ set scope parameter value
    ]
  ]
]

-- Behind `SET SESSION CHARACTERISTICS`.
unfoldable pub parse_characteristics : List Token → Statement
unfolding eat_word
parse_characteristics cur = elim (eat_word (codes "as") cur) [
  | none ↦ Statement.other
  | some rest ↦ elim (eat_word (codes "transaction") rest) [
    | none ↦ Statement.other
    | some modes ↦ set_transaction (parse_transaction_options modes)
  ]
]

unfoldable pub parse_set : List Token → Statement
unfolding eat_word set_parameter parse_characteristics parse_transaction_options
parse_set cur = elim (eat_word (codes "transaction") cur) [
  | some modes ↦ set_transaction (parse_transaction_options modes)
  | none ↦ elim (eat_word (codes "local") cur) [
    | some rest ↦ set_parameter SetScope.local rest
    | none ↦ elim (eat_word (codes "session") cur) [
      | none ↦ set_parameter SetScope.session cur
      | some rest ↦ elim (eat_word (codes "characteristics") rest) [
        | some behind ↦ parse_characteristics behind
        | none ↦ set_parameter SetScope.session rest
      ]
    ]
  ]
]

unfoldable pub parse_reset : List Token → Statement
parse_reset (word w ∷ _) =
    ite (text_dec w (codes "all")) (reset ResetTarget.all) (reset (ResetTarget.parameter w))
parse_reset (quoted_ident name ∷ _) = reset (ResetTarget.parameter name)
parse_reset _ = Statement.other

discard_target : Text → Option DiscardTarget
discard_target w = ite (text_dec w (codes "all")) (some DiscardTarget.all) (
    ite (text_dec w (codes "plans")) (some DiscardTarget.plans) (
      ite (text_dec w (codes "sequences")) (some DiscardTarget.sequences) (
        ite (text_dec w (codes "temporary")) (some DiscardTarget.temp)
          (ite (text_dec w (codes "temp")) (some DiscardTarget.temp) none))))

unfoldable pub parse_discard : List Token → Statement
unfolding discard_target
parse_discard (word w ∷ _) = elim (discard_target w) [
  | some target ↦ discard target
  | none ↦ Statement.other
]
parse_discard _ = Statement.other

-- Behind `DEALLOCATE [PREPARE]`.
deallocate_target : List Token → Statement
deallocate_target (word w ∷ _) =
    ite (text_dec w (codes "all")) (deallocate DeallocateTarget.all)
      (deallocate (DeallocateTarget.name w))
deallocate_target (quoted_ident name ∷ _) = deallocate (DeallocateTarget.name name)
deallocate_target _ = Statement.other

unfoldable pub parse_deallocate : List Token → Statement
unfolding eat_word deallocate_target
parse_deallocate cur = elim (eat_word (codes "prepare") cur) [
  | some rest ↦ deallocate_target rest
  | none ↦ deallocate_target cur
]
