-- ===== src/Statements/Client/References.antt =====
-- The references that a client holds are exactly its names.
use halephant.Prelude.Map
use halephant.Prelude.Map.{
  Map, Unique, total, weight_of, total-insert, total-remove, weight-le-total, Unique-insert,
  Unique-remove,
}
use halephant.Prelude.{
  ℕ, ◌+◌, ◌<◌, ◌≡◌, inl, inr, subst, ite, List, [], ◌∷◌, Option, none, some, Text, text_eq,
  text_dec, arith, Option-cases,
}
use halephant.Proto.Frontend.{Parse}
use halephant.Statements.Client.{
  canonical_name, ClientPrepared, count_parse, register, forget, remove, release_each,
}
use halephant.Statements.Store
use halephant.Statements.Store.{StatementStore}
use halephant.Statements.Store.Counts.{refs-add_ref, refs-release}

-- One for a name that stands for the statement.
abbrev pub stands_for : Text → Text → Text → ℕ
stands_for n name canon = ite (text_dec canon n) 1 0

abbrev pub uses : Text → Map Text Text → ℕ
uses n names = total (stands_for n) names

-- The store counts the names of this client and the references of the others.
pub record IsCounted (others : Text → ℕ) (c : ClientPrepared) (s : StatementStore) : Type 0 where
  pub once : Unique c.names
  pub counts : (n : Text) → Store.refs s n ≡ uses n c.names + others n

count_parse-refs :
    (s : StatementStore) (canon n : Text) (p : Parse) (o : Option Text)
    → (0 < weight_of (stands_for n) p.name o → 0 < Store.refs s n)
    → Store.refs (count_parse s canon p o) n + weight_of (stands_for n) p.name o
      ≡ Store.refs s n + stands_for n p.name canon
unfolding count_parse
count_parse-refs s canon n p none h = ground (arith, refs-add_ref s canon n p)
count_parse-refs s canon n p (some old) h = ground (
  arith,
  h,
  refs-add_ref s canon n p,
  refs-add_ref s canon old p,
  refs-release (Store.add_ref s canon p) old n,
)

module _ (sha256 : List ℕ → List ℕ) where
  pub register-IsCounted :
      (others : Text → ℕ) (c : ClientPrepared) (p : Parse) (s : StatementStore)
      → IsCounted others c s
      → let (c', s', canon) = register sha256 c p s in IsCounted others c' s'
  unfolding register
  register-IsCounted others c p s v =
      let canon = canonical_name sha256 p.query p.param_types in
      record {
        once = Unique-insert p.name canon c.names v.once;
        counts = λ n.
            let before = Map.lookup p.name c.names in
            omega (
              arith,
              count_parse-refs s canon n p before (λ h.
                  omega (arith, h, v.counts n, weight-le-total (stands_for n) p.name c.names)),
              total-insert (stands_for n) p.name canon c.names,
              v.counts n,
            );
      }

removed_weight :
    (n : Text) (names : Map Text Text) (name canon : Text)
    → Unique names
    → Map.lookup name names ≡ some canon
    → uses n (Map.remove name names) + stands_for n name canon ≡ uses n names
removed_weight n names name canon u e =
    subst (λ o. uses n (Map.remove name names) + weight_of (stands_for n) name o ≡ uses n names) e
      (total-remove (stands_for n) name names u)

pub remove-IsCounted :
    (others : Text → ℕ) (c : ClientPrepared) (name : Text) (s : StatementStore)
    → IsCounted others c s
    → let (c', s') = remove c name s in IsCounted others c' s'
unfolding remove
remove-IsCounted others c name s v = elim (Option-cases (Map.lookup name c.names)) [
  | inl e ↦ rw e (unfold forget in record { once = v.once; counts = v.counts })
  | inr (canon, e) ↦ rw e (
      unfold forget in
      record {
        once = Unique-remove name c.names v.once;
        counts = λ n. ground (
          arith,
          refs-release s canon n,
          v.counts n,
          removed_weight n c.names name canon v.once e,
        );
      })
]

pub release_each-refs :
    (names : Map Text Text) (s : StatementStore) (n : Text) (k : ℕ)
    → Store.refs s n ≡ uses n names + k
    → Store.refs (release_each names s) n ≡ k
unfolding release_each
release_each-refs [] s n k h = omega (arith, h)
release_each-refs ((name, canon) ∷ names) s n k h =
    release_each-refs names (Store.release s canon) n k (ground (arith, refs-release s canon n))
