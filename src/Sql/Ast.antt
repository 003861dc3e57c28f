-- ===== src/Sql/Ast.antt =====
-- crates/halephant-core/src/sql/ast.rs, with `as_boolean` of sql/mod.rs.
use halephant.Prelude.Sets
use halephant.Prelude.{
  Bool, true, false, List, [], ◌∷◌, Option, none, some, Text, text_eq, text_dec, ite, if◌then◌else◌,
  codes,
}

-- The spellings that PostgreSQL takes for a boolean.
abbrev true_values : List Text
true_values =
    codes "t"
    ∷ codes "tr"
    ∷ codes "tru"
    ∷ codes "true"
    ∷ codes "y"
    ∷ codes "ye"
    ∷ codes "yes"
    ∷ codes "on"
    ∷ codes "1"
    ∷ []

abbrev false_values : List Text
false_values =
    codes "f"
    ∷ codes "fa"
    ∷ codes "fal"
    ∷ codes "fals"
    ∷ codes "false"
    ∷ codes "n"
    ∷ codes "no"
    ∷ codes "of"
    ∷ codes "off"
    ∷ codes "0"
    ∷ []

unfoldable pub as_boolean : Text → Option Bool
as_boolean val =
    if Sets.contains val true_values
    then some true
    else if Sets.contains val false_values
    then some false
    else none

pub data UnlistenTarget : Type 0 where
  star : UnlistenTarget
  channel : Text → UnlistenTarget

pub data SetScope : Type 0 where
  session local : SetScope

pub data SetValue : Type 0 where
  literal : Text → SetValue
  default : SetValue

pub data ResetTarget : Type 0 where
  all : ResetTarget
  parameter : Text → ResetTarget

pub data DiscardTarget : Type 0 where
  all plans sequences temp : DiscardTarget

pub data DeallocateTarget : Type 0 where
  all : DeallocateTarget
  name : Text → DeallocateTarget

pub record TransactionOptions : Type 0 where
  pub read_only : Option Bool

pub data Statement : Type 0 where
  listen : Text → Statement
  unlisten : UnlistenTarget → Statement
  set : SetScope → Text → SetValue → Statement
  set_transaction : TransactionOptions → Statement
  reset : ResetTarget → Statement
  discard : DiscardTarget → Statement
  deallocate : DeallocateTarget → Statement
  begin : TransactionOptions → Statement
  commit rollback select insert update delete copy other : Statement

unfoldable pub is_read_only : Statement → Bool
is_read_only select = true
is_read_only _ = false

abbrev pub read_only_parameter : Text
read_only_parameter = codes "default_transaction_read_only"

-- `== Some(false)`.
abbrev pub is_some_false : Option Bool → Bool
is_some_false (some false) = true
is_some_false _ = false

-- The arms of `is_read_write_override` for the value of a `SET`.
sets_read_write : SetValue → Bool
sets_read_write SetValue.default = true
sets_read_write (SetValue.literal s) = is_some_false (as_boolean s)

unfoldable pub is_read_write_override : Statement → Bool
unfolding sets_read_write
is_read_write_override (begin options) = is_some_false options.read_only
is_read_write_override (set_transaction options) = is_some_false options.read_only
is_read_write_override (set scope guc value) =
    ite (text_dec guc read_only_parameter) (sets_read_write value) false
is_read_write_override (reset (ResetTarget.parameter guc)) =
    ite (text_dec guc read_only_parameter) true false
is_read_write_override (reset ResetTarget.all) = true
is_read_write_override _ = false
