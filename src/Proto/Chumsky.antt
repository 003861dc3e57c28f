-- ===== src/Proto/Chumsky.antt =====
-- What crates/halephant-core/src/proto/ uses of the parser library chumsky, as operations and their
-- documented behaviour, and `run` of proto/parser.rs. A parser is known by what it does on an input:
-- it fails, or it gives a value and the input that is left. The texts of errors are left out.
pub mod Lists
use halephant.Prelude.{ℕ, ◌+◌, ◌≡◌, refl, ◌<◌, ◌==◌, Bool, List, [], ◌∷◌, if◌then◌else◌, length}

-- A value, an error, or a panic.
pub data Outcome (E A : Type 0) : Type 0 where
  ok : A → Outcome E A
  err : E → Outcome E A
  panicked : Outcome E A

abbrev pub bind : {E A B : Type 0} → Outcome E A → (A → Outcome E B) → Outcome E B
bind (ok a) f = f a
bind (err e) f = err e
bind panicked f = panicked

-- `SimpleSpan`.
pub record Span : Type 0 where
  pub start : ℕ
  pub stop : ℕ

-- A place in the input: how many bytes came before, and those that are left.
pub record Input : Type 0 where
  pub at : ℕ
  pub left : List ℕ

-- One byte of an input, or the error of its end.
abbrev pub take_byte : {E : Type 0} → (Input → E) → ℕ → List ℕ → Outcome E (ℕ × Input)
take_byte unexpected at [] = err (unexpected (record { at = at; left = [] }))
take_byte unexpected at (b ∷ bs) = ok (b, record { at = at + 1; left = bs })

abbrev pub at_end : {E : Type 0} → (Input → E) → ℕ → List ℕ → Outcome E (Unit × Input)
at_end unexpected at [] = ok (tt, record { at = at; left = [] })
at_end unexpected at (b ∷ bs) = err (unexpected (record { at = at; left = b ∷ bs }))

pub record Chumsky : Type 1 where
  -- An error, `Rich::custom`, the error of a byte that does not fit, and `err.span().start`.
  pub Rich : Type 0
  pub rich_custom : Span → Rich
  pub unexpected : Input → Rich
  pub start : Rich → ℕ
  pub Parser : Type 0 → Type 0
  -- `inp.parse(p)` within `custom`, and `p.parse(input).into_result()` with the first error.
  pub go : {A : Type 0} → Parser A → Input → Outcome Rich (A × Input)
  pub parse : {A : Type 0} → Parser A → List ℕ → Outcome Rich A
  pub any : Parser ℕ
  pub just : ℕ → Parser ℕ
  pub end : Parser Unit
  pub mapped : {A B : Type 0} → (A → B) → Parser A → Parser B
  pub filter : {A : Type 0} → (A → Bool) → Parser A → Parser A
  pub try_map : {A B : Type 0} → (A → Span → Outcome Rich B) → Parser A → Parser B
  pub and_then : {A B : Type 0} → Parser A → Parser B → Parser (A × B)
  pub then_ignore : {A B : Type 0} → Parser A → Parser B → Parser A
  -- `repeated().collect::<Vec<_>>()`.
  pub repeated : {A : Type 0} → Parser A → Parser (List A)
  pub custom : {A : Type 0} → (Input → Outcome Rich (A × Input)) → Parser A
  pub go-any : (i : Input) → go any i ≡ take_byte unexpected i.at i.left
  pub go-just :
      (n : ℕ) (i : Input)
      → go (just n) i ≡ bind (go any i) (λ r. if r.0 == n then ok r else err (unexpected i))
  pub go-end : (i : Input) → go end i ≡ at_end unexpected i.at i.left
  pub go-mapped :
      {A B : Type 0}
      → (f : A → B) (p : Parser A) (i : Input)
      → go (mapped f p) i ≡ bind (go p i) (λ r. ok (f r.0, r.1))
  pub go-filter :
      {A : Type 0}
      → (f : A → Bool) (p : Parser A) (i : Input)
      → go (filter f p) i ≡ bind (go p i) (λ r. if f r.0 then ok r else err (unexpected i))
  pub go-try_map :
      {A B : Type 0}
      → (f : A → Span → Outcome Rich B) (p : Parser A) (i : Input)
      → go (try_map f p) i
        ≡ bind
            (go p i)
            (λ r. bind (f r.0 (record { start = i.at; stop = r.1.at })) (λ b. ok (b, r.1)))
  pub go-and_then :
      {A B : Type 0}
      → (p : Parser A) (q : Parser B) (i : Input)
      → go (and_then p q) i ≡ bind (go p i) (λ r. bind (go q r.1) (λ s. ok ((r.0, s.0), s.1)))
  pub go-then_ignore :
      {A B : Type 0}
      → (p : Parser A) (q : Parser B) (i : Input)
      → go (then_ignore p q) i ≡ bind (go p i) (λ r. bind (go q r.1) (λ s. ok (r.0, s.1)))
  -- A repetition stops where its parser fails, and goes on where the parser consumes input.
  pub go-repeated-stop :
      {A : Type 0}
      → (p : Parser A) (i : Input) (e : Rich) → go p i ≡ err e
      → go (repeated p) i ≡ ok ([], i)
  pub go-repeated-more :
      {A : Type 0}
      → (p : Parser A) (i j : Input) (a : A) → go p i ≡ ok (a, j)
      → length j.left < length i.left
      → go (repeated p) i ≡ bind (go (repeated p) j) (λ r. ok (a ∷ r.0, r.1))
  pub go-custom :
      {A : Type 0} → (f : Input → Outcome Rich (A × Input)) (i : Input) → go (custom f) i ≡ f i
  -- A parse starts at the first byte and takes the whole input.
  pub parse-go :
      {A : Type 0}
      → (p : Parser A) (bytes : List ℕ)
      → parse p bytes
        ≡ bind (go (then_ignore p end) (record { at = 0; left = bytes })) (λ r. ok r.0)

-- `ProtocolError`, of which `Io` does not arise here.
pub data ProtocolError : Type 0 where
  unknown_message_type : ℕ → ProtocolError
  invalid_value : ℕ → ProtocolError

unfoldable pub invalid : (c : Chumsky) → {A : Type 0} → Outcome c.Rich A → Outcome ProtocolError A
invalid c (ok a) = ok a
invalid c (err e) = err (invalid_value (c.start e))
invalid c panicked = panicked

unfoldable pub run : (c : Chumsky) → {A : Type 0} → c.Parser A → List ℕ → Outcome ProtocolError A
unfolding invalid
run c parser input = invalid c (c.parse (c.then_ignore parser c.end) input)

-- A parser that takes the whole input succeeds.
pub run-go :
    (c : Chumsky)
    → {A : Type 0} → (p : c.Parser A) (bytes : List ℕ) (a : A) (n : ℕ)
    → c.go p (record { at = 0; left = bytes }) ≡ ok (a, record { at = n; left = [] })
    → run c p bytes ≡ ok a
unfolding run
run-go c p bytes a n h =
    rw
      (
        c.parse-go (c.then_ignore p c.end) bytes,
        c.go-then_ignore (c.then_ignore p c.end) c.end (record { at = 0; left = bytes }),
        c.go-then_ignore p c.end (record { at = 0; left = bytes }),
        h,
        c.go-end (record { at = n; left = [] }),
        c.go-end (record { at = n; left = [] }),
      )
      refl

-- A panic of a parser is not caught.
pub run-panics :
    (c : Chumsky)
    → {A : Type 0} → (p : c.Parser A) (bytes : List ℕ)
    → c.go p (record { at = 0; left = bytes }) ≡ panicked
    → run c p bytes ≡ panicked
unfolding run
run-panics c p bytes h =
    rw
      (
        c.parse-go (c.then_ignore p c.end) bytes,
        c.go-then_ignore (c.then_ignore p c.end) c.end (record { at = 0; left = bytes }),
        c.go-then_ignore p c.end (record { at = 0; left = bytes }),
        h,
      )
      refl
