-- ===== src/Proto/Chumsky/Lists.antt =====
-- A parser library that is a function on inputs: the operations of Chumsky can be had.
use halephant.Prelude.{
  ℕ, zero, suc, ◌≡◌, refl, ◌==◌, true, List, [], ◌∷◌, if◌then◌else◌, length, ltb, ltb→lt,
  Bool-cases, inl, inr, ◌<◌, arith,
}
use halephant.Proto.Chumsky.{Outcome, ok, err, panicked, bind, Input, take_byte, at_end, Chumsky}

abbrev pub Parser : Type 0 → Type 0
Parser A = Input → Outcome ℕ (A × Input)

abbrev pub position : Input → ℕ
position i = i.at

abbrev pub from_any : Parser ℕ
from_any i = take_byte position i.at i.left

-- A repetition that is given enough fuel; a parser that consumes nothing would not end.
abbrev pub again :
    {A : Type 0}
    → (Input → Outcome ℕ (List A × Input))
    → Input
    → Outcome ℕ (A × Input)
    → Outcome ℕ (List A × Input)
again later i (ok (a, j)) =
    if ltb (length j.left) (length i.left)
    then bind (later j) (λ r. ok (a ∷ r.0, r.1))
    else panicked
again later i (err e) = ok ([], i)
again later i panicked = panicked

abbrev pub repeat : {A : Type 0} → ℕ → Parser A → Parser (List A)
repeat zero p i = panicked
repeat (suc n) p i = again (repeat n p) i (p i)

again-cong :
    {A : Type 0}
    → (f g : Input → Outcome ℕ (List A × Input)) (i : Input) (o : Outcome ℕ (A × Input))
    → ((j : Input) → length j.left < length i.left → f j ≡ g j)
    → again f i o ≡ again g i o
again-cong f g i (ok (a, j)) h = elim (Bool-cases (ltb (length j.left) (length i.left))) [
  | inl e ↦ rw (e, h j (ltb→lt _ _ e)) refl
  | inr e ↦ rw e refl
]
again-cong f g i (err e) h = refl
again-cong f g i panicked h = refl

repeat-enough :
    {A : Type 0}
    → (n m : ℕ) (p : Parser A) (i : Input) → length i.left < n
    → length i.left < m
    → repeat n p i ≡ repeat m p i
repeat-enough zero m p i h k = absurd (omega arith)
repeat-enough (suc n) zero p i h k = absurd (omega arith)
repeat-enough (suc n) (suc m) p i h k =
    again-cong (repeat n p) (repeat m p) i (p i)
      (λ j l. repeat-enough n m p j (omega arith) (omega arith))

abbrev pub from_repeated : {A : Type 0} → Parser A → Parser (List A)
from_repeated p i = repeat (suc (length i.left)) p i

pub repeated-stop :
    {A : Type 0} → (p : Parser A) (i : Input) (e : ℕ) → p i ≡ err e → from_repeated p i ≡ ok ([], i)
repeated-stop p i e h = rw h refl

pub repeated-more :
    {A : Type 0}
    → (p : Parser A) (i j : Input) (a : A) → p i ≡ ok (a, j)
    → length j.left < length i.left
    → from_repeated p i ≡ bind (from_repeated p j) (λ r. ok (a ∷ r.0, r.1))
repeated-more p i j a h l =
    let e : ltb (length j.left) (length i.left) ≡ true = ground arith in
    rw (h, e, repeat-enough (length i.left) (suc (length j.left)) p j l (omega arith)) refl

abbrev pub then_ends : {A : Type 0} → Parser A → Parser A
then_ends p i = bind (p i) (λ r. bind (at_end position r.1.at r.1.left) (λ s. ok (r.0, s.1)))

abbrev pub on_lists : Chumsky
on_lists = record {
  Rich = ℕ;
  rich_custom = λ span. span.start;
  unexpected = position;
  start = λ e. e;
  Parser = Parser;
  go = λ p i. p i;
  parse = λ p bytes. bind (then_ends p (record { at = 0; left = bytes })) (λ r. ok r.0);
  any = from_any;
  just = λ n i. bind (from_any i) (λ r. if r.0 == n then ok r else err i.at);
  end = λ i. at_end position i.at i.left;
  mapped = λ f p i. bind (p i) (λ r. ok (f r.0, r.1));
  filter = λ f p i. bind (p i) (λ r. if f r.0 then ok r else err i.at);
  try_map = λ f p i.
      bind (p i) (λ r. bind (f r.0 (record { start = i.at; stop = r.1.at })) (λ b. ok (b, r.1)));
  and_then = λ p q i. bind (p i) (λ r. bind (q r.1) (λ s. ok ((r.0, s.0), s.1)));
  then_ignore = λ p q i. bind (p i) (λ r. bind (q r.1) (λ s. ok (r.0, s.1)));
  repeated = from_repeated;
  custom = λ f. f;
  go-any = λ i. refl;
  go-just = λ n i. refl;
  go-end = λ i. refl;
  go-mapped = λ f p i. refl;
  go-filter = λ f p i. refl;
  go-try_map = λ f p i. refl;
  go-and_then = λ p q i. refl;
  go-then_ignore = λ p q i. refl;
  go-repeated-stop = repeated-stop;
  go-repeated-more = repeated-more;
  go-custom = λ f i. refl;
  parse-go = λ p bytes. refl;
}
