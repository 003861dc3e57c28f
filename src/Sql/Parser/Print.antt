-- ===== src/Sql/Parser/Print.antt =====
-- Every statement that the AST can express has a text that is classified as that statement.
use halephant.Prelude.{
  ◌≡◌, refl, Bool, true, false, List, [], ◌∷◌, Option, none, some, text_dec, ℕ_discrete, codes,
}
use halephant.Sql.Ast.{
  UnlistenTarget, SetScope, SetValue, ResetTarget, DiscardTarget, DeallocateTarget, Statement,
  listen, unlisten, set, set_transaction, reset, discard, deallocate, begin, commit, rollback,
  select, insert, update, delete, copy,
}
use halephant.Sql.Parser.{parse_statement}
use halephant.Sql.Tokens.{Token, word, quoted_ident, literal, star}

print_modes : Option Bool → List Token
print_modes none = []
print_modes (some true) = word (codes "read") ∷ word (codes "only") ∷ []
print_modes (some false) = word (codes "read") ∷ word (codes "write") ∷ []

print_scope : SetScope → Token
print_scope SetScope.session = word (codes "session")
print_scope SetScope.local = word (codes "local")

print_value : SetValue → Token
print_value (SetValue.literal v) = literal v
print_value SetValue.default = word (codes "default")

print_discard : DiscardTarget → Token
print_discard DiscardTarget.all = word (codes "all")
print_discard DiscardTarget.plans = word (codes "plans")
print_discard DiscardTarget.sequences = word (codes "sequences")
print_discard DiscardTarget.temp = word (codes "temp")

-- Names are quoted, so that none of them is read as a keyword.
pub print : Statement → List Token
unfolding print_modes print_scope print_value print_discard
print (listen channel) = word (codes "listen") ∷ quoted_ident channel ∷ []
print (unlisten UnlistenTarget.star) = word (codes "unlisten") ∷ star ∷ []
print (unlisten (UnlistenTarget.channel name)) = word (codes "unlisten") ∷ quoted_ident name ∷ []
print (set scope guc value) =
    word (codes "set")
    ∷ print_scope scope
    ∷ quoted_ident guc
    ∷ word (codes "to")
    ∷ print_value value
    ∷ []
print (set_transaction options) =
    word (codes "set") ∷ word (codes "transaction") ∷ print_modes options.read_only
print (reset ResetTarget.all) = word (codes "reset") ∷ word (codes "all") ∷ []
print (reset (ResetTarget.parameter guc)) = word (codes "reset") ∷ quoted_ident guc ∷ []
print (discard target) = word (codes "discard") ∷ print_discard target ∷ []
print (deallocate DeallocateTarget.all) = word (codes "deallocate") ∷ word (codes "all") ∷ []
print (deallocate (DeallocateTarget.name name)) = word (codes "deallocate") ∷ quoted_ident name ∷ []
print (begin options) = word (codes "begin") ∷ print_modes options.read_only
print commit = word (codes "commit") ∷ []
print rollback = word (codes "rollback") ∷ []
print select = word (codes "select") ∷ []
print insert = word (codes "insert") ∷ []
print update = word (codes "update") ∷ []
print delete = word (codes "delete") ∷ []
print copy = word (codes "copy") ∷ []
print Statement.other = []

set_transaction-print :
    (m : Option Bool)
    → parse_statement (word (codes "set") ∷ word (codes "transaction") ∷ print_modes m)
      ≡ set_transaction (record { read_only = m })
unfolding parse_statement print_modes text_dec ℕ_discrete
set_transaction-print none = refl
set_transaction-print (some true) = refl
set_transaction-print (some false) = refl

begin-print :
    (m : Option Bool)
    → parse_statement (word (codes "begin") ∷ print_modes m) ≡ begin (record { read_only = m })
unfolding parse_statement print_modes text_dec ℕ_discrete
begin-print none = refl
begin-print (some true) = refl
begin-print (some false) = refl

-- A statement printed as tokens, with its names quoted, is classified as that statement.
pub parse_statement-print : (s : Statement) → parse_statement (print s) ≡ s
unfolding parse_statement print text_dec ℕ_discrete
parse_statement-print (listen channel) = refl
parse_statement-print (unlisten UnlistenTarget.star) = refl
parse_statement-print (unlisten (UnlistenTarget.channel name)) = refl
parse_statement-print (set SetScope.session guc (SetValue.literal v)) = refl
parse_statement-print (set SetScope.session guc SetValue.default) = refl
parse_statement-print (set SetScope.local guc (SetValue.literal v)) = refl
parse_statement-print (set SetScope.local guc SetValue.default) = refl
parse_statement-print (set_transaction o) = set_transaction-print o.read_only
parse_statement-print (reset ResetTarget.all) = refl
parse_statement-print (reset (ResetTarget.parameter guc)) = refl
parse_statement-print (discard DiscardTarget.all) = refl
parse_statement-print (discard DiscardTarget.plans) = refl
parse_statement-print (discard DiscardTarget.sequences) = refl
parse_statement-print (discard DiscardTarget.temp) = refl
parse_statement-print (deallocate DeallocateTarget.all) = refl
parse_statement-print (deallocate (DeallocateTarget.name name)) = refl
parse_statement-print (begin o) = begin-print o.read_only
parse_statement-print commit = refl
parse_statement-print rollback = refl
parse_statement-print select = refl
parse_statement-print insert = refl
parse_statement-print update = refl
parse_statement-print delete = refl
parse_statement-print copy = refl
parse_statement-print Statement.other = refl
