-- ===== src/Statements/Client/Sessions.antt =====
-- Many clients on one store: each acts in turn, in any order.
use mathlib.Core.Option.{some-injective}
use halephant.Prelude.Map.{Unique, weight_of, weight-le-total}
use halephant.Prelude.{
  ℕ, zero, suc, ◌+◌, ◌<◌, ◌≤◌, ◌≡◌, refl, subst, ite, ◌∙◌, List, [], ◌∷◌, some, get_elem?, Text,
  text_eq, text_dec, arith, All,
}
use halephant.Proto.Frontend.{Parse}
use halephant.Statements.Client.{
  canonical_name, ClientPrepared, new, register, resolve, remove, release_all,
}
use halephant.Statements.Client.Origin.{
  IsKeyed, IsNamed, register-AllEntries, remove-AllEntries, release_each-AllEntries,
}
use halephant.Statements.Client.References.{
  uses, stands_for, IsCounted, register-IsCounted, remove-IsCounted, release_each-refs,
}
use halephant.Statements.Store
use halephant.Statements.Store.Counts.{refs-new}
use halephant.Statements.Store.Entries.{get_of_refs, get-AllEntries, AllEntries-new}
use halephant.Statements.Store.{StatementStore}

-- A client sends `Parse`, closes or deallocates one statement, or deallocates all or disconnects.
pub data Action : Type 0 where
  parses : Parse → Action
  closes : Text → Action
  releases : Action

pub record World : Type 0 where
  pub clients : List ClientPrepared
  pub store : StatementStore

-- As many clients as wanted, with no statements.
abbrev pub arrivals : ℕ → List ClientPrepared
arrivals zero = []
arrivals (suc n) = new ∷ arrivals n

abbrev pub start : ℕ → World
start n = record { clients = arrivals n; store = Store.new }

-- The names of all clients that stand for a statement.
abbrev pub all_uses : Text → List ClientPrepared → ℕ
all_uses n [] = 0
all_uses n (c ∷ cs) = uses n c.names + all_uses n cs

module _ (sha256 : List ℕ → List ℕ) where
  abbrev pub act : Action → ClientPrepared → StatementStore → ClientPrepared × StatementStore
  act (parses p) c s = let (c', s', canon) = register sha256 c p s in (c', s')
  act (closes name) c s = remove c name s
  act releases c s = release_all c s

  abbrev pub act_at :
      ℕ → Action → List ClientPrepared → StatementStore → List ClientPrepared × StatementStore
  act_at i a [] s = ([], s)
  act_at zero a (c ∷ cs) s = let (c', s') = act a c s in (c' ∷ cs, s')
  act_at (suc i) a (c ∷ cs) s = let (cs', s') = act_at i a cs s in (c ∷ cs', s')

  abbrev pub step : World → ℕ × Action → World
  step w (i, a) = let (cs, s) = act_at i a w.clients w.store in record { clients = cs; store = s }

  abbrev pub run : World → List (ℕ × Action) → World
  run w [] = w
  run w (a ∷ rest) = run (step w a) rest

  act-IsCounted :
      (a : Action) (others : Text → ℕ) (c : ClientPrepared) (s : StatementStore)
      → IsCounted others c s
      → IsCounted others (act a c s).0 (act a c s).1
  unfolding release_all
  act-IsCounted (parses p) others c s v = register-IsCounted sha256 others c p s v
  act-IsCounted (closes name) others c s v = remove-IsCounted others c name s v
  act-IsCounted releases others c s v = record {
    once = tt;
    counts = λ n. release_each-refs c.names s n _ (v.counts n) ∙ omega arith;
  }

  act-IsKeyed :
      (a : Action) (c : ClientPrepared) (s : StatementStore)
      → IsKeyed sha256 s
      → IsKeyed sha256 (act a c s).1
  unfolding release_all
  act-IsKeyed (parses p) c s v = register-AllEntries sha256 (IsNamed sha256) c p s (refl, refl) v
  act-IsKeyed (closes name) c s v = remove-AllEntries (IsNamed sha256) c name s v
  act-IsKeyed releases c s v = release_each-AllEntries (IsNamed sha256) c.names s v

  -- The clients from one place on, with the references of those before it.
  record AreCounted (others : Text → ℕ) (cs : List ClientPrepared) (s : StatementStore)
      : Type 0 where
    once : All (λ c. Unique c.names) cs
    counts : (n : Text) → Store.refs s n ≡ all_uses n cs + others n
    keyed : IsKeyed sha256 s

  act_at-AreCounted :
      (i : ℕ) (a : Action) (others : Text → ℕ) (cs : List ClientPrepared) (s : StatementStore)
      → AreCounted others cs s
      → AreCounted others (act_at i a cs s).0 (act_at i a cs s).1
  act_at-AreCounted i a others [] s v = v
  act_at-AreCounted zero a others (c ∷ cs) s v =
      let next =
        act-IsCounted a (λ n. all_uses n cs + others n) c s
          (record { once = v.once.0; counts = λ n. omega (arith, v.counts n) }) in
      record {
        once = (next.once, v.once.1);
        counts = λ n. omega (arith, next.counts n);
        keyed = act-IsKeyed a c s v.keyed;
      }
  act_at-AreCounted (suc i) a others (c ∷ cs) s v =
      let next =
        act_at-AreCounted i a (λ n. uses n c.names + others n) cs s
          (record { once = v.once.1; counts = λ n. omega (arith, v.counts n); keyed = v.keyed }) in
      record {
        once = (v.once.0, next.once);
        counts = λ n. omega (arith, next.counts n);
        keyed = next.keyed;
      }

  abbrev IsBalanced : World → Type 0
  IsBalanced w = AreCounted (λ n. 0) w.clients w.store

  run-IsBalanced : (w : World) (calls : List (ℕ × Action)) → IsBalanced w → IsBalanced (run w calls)
  run-IsBalanced w [] v = v
  run-IsBalanced w ((i, a) ∷ calls) v =
      run-IsBalanced (step w (i, a)) calls (act_at-AreCounted i a (λ n. 0) w.clients w.store v)

arrivals-unused : (n : Text) (k : ℕ) → all_uses n (arrivals k) ≡ 0
unfolding new
arrivals-unused n zero = refl
arrivals-unused n (suc k) = omega (arith, arrivals-unused n k)

arrivals-Unique : (k : ℕ) → All (λ c. Unique c.names) (arrivals k)
unfolding new
arrivals-Unique zero = tt
arrivals-Unique (suc k) = (tt, arrivals-Unique k)

module _ (sha256 : List ℕ → List ℕ) where
  start-IsBalanced : (k : ℕ) → IsBalanced sha256 (start k)
  start-IsBalanced k = record {
    once = arrivals-Unique k;
    counts = λ n. omega (arith, refs-new n, arrivals-unused n k);
    keyed = AllEntries-new (IsNamed sha256);
  }

  -- After any sequence of registrations, closes and releases by any number of clients, the store
  -- counts for every canonical name exactly the statement names, of all clients together, that
  -- stand for it.
  pub refs-run :
      (k : ℕ) (calls : List (ℕ × Action)) (n : Text)
      → let w = run sha256 (start k) calls in Store.refs w.store n ≡ all_uses n w.clients
  refs-run k calls n =
      omega (arith, (run-IsBalanced sha256 (start k) calls (start-IsBalanced k)).counts n)

  uses_of_resolve :
      (c : ClientPrepared) (name n : Text) → resolve c name ≡ some n → 0 < uses n c.names
  unfolding resolve
  uses_of_resolve c name n e =
      let held : ite (text_dec n n) 1 0 ≤ uses n c.names =
        subst (λ o. weight_of (stands_for n) name o ≤ uses n c.names) e
          (weight-le-total (stands_for n) name c.names) in
      ground (arith, held)

  uses-le-all :
      (cs : List ClientPrepared) (i : ℕ) (c : ClientPrepared) (n : Text)
      → get_elem? cs i ≡ some c
      → uses n c.names ≤ all_uses n cs
  uses-le-all [] i c n e = absurd (cc)
  uses-le-all (x ∷ cs) zero c n e = rw (← some-injective _ _ e) (omega arith)
  uses-le-all (x ∷ cs) (suc i) c n e = omega (arith, uses-le-all cs i c n e)

  -- After any sequence of registrations, closes and releases by any number of clients, a name that a
  -- client resolves has a stored `Parse`: under no client's name, with a query and parameter types
  -- whose canonical name is the one resolved.
  pub get-resolve :
      (k : ℕ) (calls : List (ℕ × Action)) (i : ℕ) (c : ClientPrepared) (name canon : Text)
      → let w = run sha256 (start k) calls in
        get_elem? w.clients i ≡ some c
        → resolve c name ≡ some canon
        → (p : Parse) × (Store.get w.store canon ≡ some p)
          × (canonical_name sha256 p.query p.param_types ≡ canon)
          × (p.name ≡ [])
  get-resolve k calls i c name canon at e =
      let w : World = run sha256 (start k) calls in
      let v = run-IsBalanced sha256 (start k) calls (start-IsBalanced k) in
      let (p, found) = get_of_refs w.store canon (
        omega (
          arith,
          v.counts canon,
          uses-le-all w.clients i c canon at,
          uses_of_resolve c name canon e,
        )) in
      let named = get-AllEntries (IsNamed sha256) w.store canon p v.keyed found in
      (p, found, named.0, named.1)
