-- ===== src/Statements/Store/Counts.antt =====
-- How `add_ref` and `release` move the counts, and what the store holds after them.
use halephant.Prelude.Map
use halephant.Prelude.Map.{lookup-insert, lookup-remove}
use halephant.Prelude.{
  ◌+◌, ◌-◌, ◌≡◌, refl, ◌∙◌, ite, Option, none, some, Text, text_eq, text_dec, arith,
}
use halephant.Statements.Store.{
  StoreEntry, StatementStore, new, fresh_entry, add_ref, release_entry, release, refs_in, refs,
}
use halephant.Proto.Frontend.{Parse}

pub refs-new : (n : Text) → refs new n ≡ 0
unfolding refs new Map.lookup
refs-new n = refl

pub refs-add_ref :
    (s : StatementStore) (c n : Text) (p : Parse)
    → refs (add_ref s c p) n ≡ ite (text_dec c n) (refs s c + 1) (refs s n)
unfolding refs add_ref
refs-add_ref s c n p = ground (
  arith,
  lookup-insert n c
      (record {
        parse = (fresh_entry p (Map.lookup c s.statements)).parse;
        refs = (fresh_entry p (Map.lookup c s.statements)).refs + 1;
      })
      s.statements,
)

refs_release_entry :
    (s : StatementStore) (c n : Text) (o : Option StoreEntry)
    → Map.lookup c s.statements ≡ o
    → refs (release_entry s c o) n ≡ ite (text_dec c n) (refs_in o - 1) (refs s n)
unfolding refs release_entry
refs_release_entry s c n none e = ground arith
refs_release_entry s c n (some x) e = ground (
  arith,
  lookup-insert n c (record x { refs = x.refs - 1 }) s.statements,
  lookup-remove n c s.statements,
)

pub refs-release :
    (s : StatementStore) (c n : Text)
    → refs (release s c) n ≡ ite (text_dec c n) (refs s c - 1) (refs s n)
unfolding release
refs-release s c n = refs_release_entry s c n (Map.lookup c s.statements) refl ∙ unfold refs in refl
