-- ===== src/Statements/Store.antt =====
-- `StatementStore` of crates/halephant-core/src/pool/prepared.rs: the `Parse` message of every
-- canonical name, with the number of its references. A count does not reach 2 ^ 64.
pub mod Counts
pub mod Entries
use halephant.Prelude.Map
use halephant.Prelude.Map.{Map}
use halephant.Prelude.{
  ℕ, ◌+◌, ◌-◌, ◌≡◌, refl, [], Option, none, some, Text, text_eq, ite, ℕ_discrete, text_dec, arith,
}
use halephant.Proto.Frontend.{Parse}

pub record StoreEntry : Type 0 where
  pub parse : Parse
  pub refs : ℕ

pub record StatementStore : Type 0 where
  pub statements : Map Text StoreEntry

unfoldable pub new : StatementStore
new = record { statements = [] }

-- `or_insert_with`: the entry of the name, or a fresh one with no reference.
fresh_entry : Parse → Option StoreEntry → StoreEntry
fresh_entry parse none = record { parse = record parse { name = [] }; refs = 0 }
fresh_entry parse (some entry) = entry

unfoldable pub add_ref : StatementStore → Text → Parse → StatementStore
unfolding fresh_entry
add_ref s canon parse =
    let entry = fresh_entry parse (Map.lookup canon s.statements) in
    record s { statements = Map.insert canon (record entry { refs = entry.refs + 1 }) s.statements }

release_entry : StatementStore → Text → Option StoreEntry → StatementStore
release_entry s canon none = s
release_entry s canon (some entry) =
    let rest = record entry { refs = entry.refs - 1 } in
    record s {
      statements =
          ite (ℕ_discrete rest.refs 0) (Map.remove canon s.statements)
            (Map.insert canon rest s.statements);
    }

unfoldable pub release : StatementStore → Text → StatementStore
unfolding release_entry
release s canon = release_entry s canon (Map.lookup canon s.statements)

entry_parse : Option StoreEntry → Option Parse
entry_parse none = none
entry_parse (some entry) = some entry.parse

unfoldable pub get : StatementStore → Text → Option Parse
unfolding entry_parse
get s canon = entry_parse (Map.lookup canon s.statements)

-- The references of a name; a name with no entry has none.
refs_in : Option StoreEntry → ℕ
refs_in none = 0
refs_in (some entry) = entry.refs

unfoldable pub refs : StatementStore → Text → ℕ
unfolding refs_in
refs s canon = refs_in (Map.lookup canon s.statements)
