-- ===== src/Statements/Client/Origin.antt =====
-- What holds of the stored statements and of the canonical names behind one client's names.
use halephant.Prelude.Map
use halephant.Prelude.Map.{Map, lookup-insert, lookup-remove}
use halephant.Prelude.{
  ℕ, ◌≡◌, inl, inr, List, [], ◌∷◌, Option, none, some, Text, text_eq, text_dec, Option-cases,
  if_pos, if_neg, ite,
}
use halephant.Proto.Frontend.{Parse}
use halephant.Statements.Client.{
  canonical_name, ClientPrepared, count_parse, register, resolve, forget, remove, release_each,
  release_all,
}
use halephant.Statements.Store
use halephant.Statements.Store.Entries.{AllEntries, add_ref-AllEntries, release-AllEntries}
use halephant.Statements.Store.{StatementStore}

-- A predicate on the entries of the store, kept by what a client does with its names.
module _ (sha256 : List ℕ → List ℕ) (P : Text → Parse → Type 0) where
  pub register-AllEntries :
      (c : ClientPrepared) (p : Parse) (s : StatementStore)
      → P (canonical_name sha256 p.query p.param_types) (record p { name = [] })
      → AllEntries P s
      → AllEntries P (register sha256 c p s).1
  unfolding register
  register-AllEntries c p s h v = counted (Map.lookup p.name c.names)
    where
      canon : Text
      canon = canonical_name sha256 p.query p.param_types

      added : AllEntries P (Store.add_ref s canon p)
      added = add_ref-AllEntries P s canon p h v

      counted : (o : Option Text) → AllEntries P (count_parse s canon p o)
      counted none = unfold count_parse in added
      counted (some old) = elim (text_dec old canon) [
        | yes e ↦ unfold count_parse in rw (if_pos _ e) v
        | no e ↦ unfold count_parse in rw (if_neg _ e) (release-AllEntries P _ old added)
      ]

module _ (P : Text → Parse → Type 0) where
  pub remove-AllEntries :
      (c : ClientPrepared) (name : Text) (s : StatementStore)
      → AllEntries P s
      → AllEntries P (remove c name s).1
  unfolding remove forget
  remove-AllEntries c name s v = elim (Option-cases (Map.lookup name c.names)) [
    | inl e ↦ rw (e, forget) v
    | inr (canon, e) ↦ rw (e, forget) (release-AllEntries P s canon v)
  ]

  pub release_each-AllEntries :
      (names : Map Text Text) (s : StatementStore)
      → AllEntries P s
      → AllEntries P (release_each names s)
  unfolding release_each
  release_each-AllEntries [] s v = v
  release_each-AllEntries ((name, canon) ∷ names) s v =
      release_each-AllEntries names (Store.release s canon) (release-AllEntries P s canon v)

-- A predicate on the canonical names behind a client's names, kept by them.
module _ (Q : Text → Type 0) where
  abbrev pub IsNamedBy : Option Text → Type 0
  IsNamedBy none = Unit
  IsNamedBy (some canon) = Q canon

  abbrev pub AllNames : ClientPrepared → Type 0
  AllNames c = (name : Text) → IsNamedBy (resolve c name)

  IsNamedBy-ite :
      (a b : Text) (x y : Option Text)
      → IsNamedBy x
      → IsNamedBy y
      → IsNamedBy (ite (text_dec a b) x y)
  IsNamedBy-ite a b x y h k = elim (text_dec a b) as (λ d. IsNamedBy (ite d x y)) [
    | yes _ ↦ h
    | no _ ↦ k
  ]

  pub register-AllNames :
      (sha256 : List ℕ → List ℕ) (c : ClientPrepared) (p : Parse) (s : StatementStore)
      → Q (canonical_name sha256 p.query p.param_types)
      → AllNames c
      → AllNames (register sha256 c p s).0
  unfolding register resolve
  register-AllNames sha256 c p s q h name =
      rw (lookup-insert name p.name) (IsNamedBy-ite p.name name (some _) _ q (h name))

  pub remove-AllNames :
      (c : ClientPrepared) (gone : Text) (s : StatementStore)
      → AllNames c
      → AllNames (remove c gone s).0
  unfolding remove forget resolve
  remove-AllNames c gone s h name = elim (Option-cases (Map.lookup gone c.names)) [
    | inl e ↦ rw (e, forget) (h name)
    | inr (canon, e) ↦
        rw (e, forget) (rw (lookup-remove name gone) (IsNamedBy-ite gone name none _ tt (h name)))
  ]

  pub release_all-AllNames :
      (c : ClientPrepared) (s : StatementStore) → AllNames (release_all c s).0
  unfolding release_all resolve Map.lookup
  release_all-AllNames c s name = tt

module _ (sha256 : List ℕ → List ℕ) where
  -- The stored statement has this canonical name and no client's name.
  abbrev pub IsNamed : Text → Parse → Type 0
  IsNamed canon p = (canonical_name sha256 p.query p.param_types ≡ canon) × (p.name ≡ [])

  abbrev pub IsKeyed : StatementStore → Type 0
  IsKeyed = AllEntries IsNamed
