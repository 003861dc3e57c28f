-- ===== src/Statements/Client.antt =====
-- `ClientPrepared` of crates/halephant-core/src/proxy/prepared.rs: the canonical name behind each
-- statement name of one client. SHA-256 comes from a library, so it is a parameter.
pub mod References
pub mod Origin
pub mod Sessions
use halephant.Prelude.Map
use halephant.Prelude.Map.{Map}
use halephant.Prelude.Utf8.{as_bytes}
use halephant.Prelude.{
  ℕ, zero, suc, ◌+◌, ◌-◌, ◌*◌, ◌/◌, ◌%◌, ◌^◌, ◌++◌, ite, List, [], ◌∷◌, Option, none, some, Text,
  text_eq, text_dec, ltb, if◌then◌else◌, codes,
}
use halephant.Proto.Frontend.{Parse}
use halephant.Proto.Types.{Oid}
use halephant.Statements.Store
use halephant.Statements.Store.{StatementStore}

-- `oid.to_le_bytes()`.
abbrev le_bytes : Oid → List ℕ
le_bytes oid = oid % 256 ∷ oid / 2 ^ 8 % 256 ∷ oid / 2 ^ 16 % 256 ∷ oid / 2 ^ 24 % 256 ∷ []

hashed_types : List Oid → List ℕ
hashed_types [] = []
hashed_types (oid ∷ oids) = le_bytes oid ++ hashed_types oids

-- `u64::from_le_bytes` of the first `n` bytes.
from_le_bytes : ℕ → List ℕ → ℕ
from_le_bytes zero bytes = 0
from_le_bytes (suc n) [] = 0
from_le_bytes (suc n) (b ∷ bytes) = b + 256 * from_le_bytes n bytes

abbrev hex_digit : ℕ → ℕ
hex_digit d = if ltb d 10 then b'0' + d else b'a' + d - 10

-- `{:016x}`, with the digits still to come in front.
hex_digits : ℕ → ℕ → Text → Text
hex_digits zero value digits = digits
hex_digits (suc n) value digits = hex_digits n (value / 16) (hex_digit (value % 16) ∷ digits)

unfoldable pub canonical_name : (List ℕ → List ℕ) → Text → List Oid → Text
unfolding hashed_types from_le_bytes hex_digits
canonical_name sha256 query param_types =
    codes "_hp_"
    ++ hex_digits 16 (from_le_bytes 8 (sha256 (as_bytes query ++ hashed_types param_types))) []

pub record ClientPrepared : Type 0 where
  pub names : Map Text Text

unfoldable pub new : ClientPrepared
new = record { names = [] }

-- The `match` of `register` on the canonical name that was there before.
count_parse : StatementStore → Text → Parse → Option Text → StatementStore
count_parse store canon parse none = Store.add_ref store canon parse
count_parse store canon parse (some old_canon) =
    ite (text_dec old_canon canon) store (Store.release (Store.add_ref store canon parse) old_canon)

module _ (sha256 : List ℕ → List ℕ) where
  unfoldable pub register :
      ClientPrepared → Parse → StatementStore → ClientPrepared × StatementStore × Text
  unfolding count_parse
  register c parse store =
      let canon = canonical_name sha256 parse.query parse.param_types in
      (
        record c { names = Map.insert parse.name canon c.names },
        count_parse store canon parse (Map.lookup parse.name c.names),
        canon,
      )

unfoldable pub resolve : ClientPrepared → Text → Option Text
resolve c client_name = Map.lookup client_name c.names

forget : ClientPrepared → Text → StatementStore → Option Text → ClientPrepared × StatementStore
forget c client_name store none = (c, store)
forget c client_name store (some canon) =
    (record c { names = Map.remove client_name c.names }, Store.release store canon)

unfoldable pub remove : ClientPrepared → Text → StatementStore → ClientPrepared × StatementStore
unfolding forget
remove c client_name store = forget c client_name store (Map.lookup client_name c.names)

pub release_each : Map Text Text → StatementStore → StatementStore
release_each [] store = store
release_each ((name, canon) ∷ names) store = release_each names (Store.release store canon)

unfoldable pub release_all : ClientPrepared → StatementStore → ClientPrepared × StatementStore
unfolding release_each
release_all c store = (record c { names = [] }, release_each c.names store)
