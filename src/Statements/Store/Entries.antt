-- ===== src/Statements/Store/Entries.antt =====
-- What is stored under each canonical name.
use mathlib.Core.Option.{some-injective}
use halephant.Prelude.Map
use halephant.Prelude.Map.{lookup-insert, lookup-remove}
use halephant.Prelude.{
  if_pos, if_neg, ◌-◌, ◌<◌, ◌≡◌, subst, ite, inl, inr, [], Option, none, some, Text, text_eq,
  text_dec, ℕ_discrete, arith, Option-cases,
}
use halephant.Proto.Frontend.{Parse}
use halephant.Statements.Store.{
  StatementStore, StoreEntry, new, fresh_entry, add_ref, release_entry, release, entry_parse, get,
  refs,
}

-- A name with references has a statement.
pub get_of_refs : (s : StatementStore) (n : Text) → 0 < refs s n → (p : Parse) × (get s n ≡ some p)
unfolding refs get
get_of_refs s n h = elim (Option-cases (Map.lookup n s.statements)) [
  | inl e ↦ absurd (ground arith)
  | inr (x, e) ↦ (x.parse, ground arith)
]

module _ (P : Text → Parse → Type 0) where
  abbrev pub IsEntry : Text → Option StoreEntry → Type 0
  IsEntry n none = Unit
  IsEntry n (some x) = P n x.parse × (0 < x.refs)

  pub record AllEntries (s : StatementStore) : Type 0 where
    pub entry : (n : Text) → IsEntry n (Map.lookup n s.statements)

  pub AllEntries-new : AllEntries new
  unfolding new Map.lookup
  AllEntries-new = record { entry = λ n. tt }

  IsEntry-at :
      (c n : Text) (x y : Option StoreEntry)
      → IsEntry c x
      → IsEntry n y
      → IsEntry n (ite (text_dec c n) x y)
  IsEntry-at c n x y hx hy = elim (text_dec c n) as (λ d. IsEntry n (ite d x y)) [
    | yes e ↦ subst (λ m. IsEntry m x) e hx
    | no _ ↦ hy
  ]

  fresh_entry-IsEntry :
      (c : Text) (p : Parse) (o : Option StoreEntry)
      → P c (record p { name = [] })
      → IsEntry c o
      → P c (fresh_entry p o).parse
  unfolding fresh_entry
  fresh_entry-IsEntry c p none h v = h
  fresh_entry-IsEntry c p (some x) h v = v.0

  pub add_ref-AllEntries :
      (s : StatementStore) (c : Text) (p : Parse)
      → P c (record p { name = [] })
      → AllEntries s
      → AllEntries (add_ref s c p)
  unfolding add_ref
  add_ref-AllEntries s c p h v = record {
    entry = λ n. rw (lookup-insert n c) (
        IsEntry-at c n (some _) (Map.lookup n s.statements)
          (fresh_entry-IsEntry c p (Map.lookup c s.statements) h (v.entry c), omega arith)
          (v.entry n));
  }

  release_entry-AllEntries :
      (s : StatementStore) (c : Text) (o : Option StoreEntry)
      → IsEntry c o
      → AllEntries s
      → AllEntries (release_entry s c o)
  unfolding release_entry
  release_entry-AllEntries s c none h v = v
  release_entry-AllEntries s c (some x) h v = elim (ℕ_discrete (x.refs - 1) 0) [
    | yes z ↦ rw (if_pos _ z) (record {
      entry = λ n.
          rw (lookup-remove n c) (IsEntry-at c n none (Map.lookup n s.statements) tt (v.entry n));
    })
    | no z ↦ rw (if_neg _ z) (record {
      entry = λ n.
          rw (lookup-insert n c)
            (IsEntry-at c n (some _) (Map.lookup n s.statements) (h.0, omega arith) (v.entry n));
    })
  ]

  pub release-AllEntries : (s : StatementStore) (c : Text) → AllEntries s → AllEntries (release s c)
  unfolding release
  release-AllEntries s c v = release_entry-AllEntries s c (Map.lookup c s.statements) (v.entry c) v

  entry_parse-IsEntry :
      (n : Text) (o : Option StoreEntry) (p : Parse) → IsEntry n o → entry_parse o ≡ some p → P n p
  unfolding entry_parse
  entry_parse-IsEntry n none p h e = absurd (ground arith)
  entry_parse-IsEntry n (some x) p h e = subst (P n) (some-injective _ _ e) h.0

  -- What `get` returns satisfies the predicate.
  pub get-AllEntries :
      (s : StatementStore) (n : Text) (p : Parse) → AllEntries s → get s n ≡ some p → P n p
  unfolding get
  get-AllEntries s n p v e = entry_parse-IsEntry n (Map.lookup n s.statements) p (v.entry n) e
