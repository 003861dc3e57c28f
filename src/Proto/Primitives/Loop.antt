-- ===== src/Proto/Primitives/Loop.antt =====
-- `loop { ... break ... push ... }` of the parsers of crates/halephant-core/src/proto/: a step reads
-- an item, or the end.
use halephant.Prelude.{
  ℕ, zero, suc, ◌+◌, ◌≡◌, ◌<◌, ◌++◌, ◌≤◌, append_assoc, length-append, refl, List, [], ◌∷◌, Option,
  none, some, length, All, arith,
}
use halephant.Proto.Chumsky.{Outcome, ok, err, panicked, bind, Input}
use halephant.Proto.Primitives.Wire.{Takes, each}

-- One round: the end, an item and what the rounds after it give, or a failure.
abbrev pub round :
    {E A : Type 0}
    → (Input → Outcome E (List A × Input))
    → Outcome E (Option A × Input)
    → Outcome E (List A × Input)
round later (ok (none, j)) = ok ([], j)
round later (ok (some a, j)) = bind (later j) (λ s. ok (a ∷ s.0, s.1))
round later (err e) = err e
round later panicked = panicked

module _ {E A : Type 0} (step : Input → Outcome E (Option A × Input)) where
  -- On fuel, of which an input of `n` bytes needs at most `n + 1`.
  unfoldable pub loop : ℕ → Input → Outcome E (List A × Input)
  loop zero i = panicked
  loop (suc n) i = round (loop n) (step i)

  unfoldable pub loop_all : Input → Outcome E (List A × Input)
  unfolding loop
  loop_all i = loop (suc (length i.left)) i

  -- A loop takes its items, and what ends it.
  Takes-loop :
      (f : A → List ℕ) (ending : List ℕ) (xs : List A) (n at : ℕ) (tail : List ℕ)
      → All (λ x. Takes step (f x) (some x)) xs
      → Takes step ending none
      → length xs < n
      → loop n (record { at = at; left = each f xs ++ (ending ++ tail) })
        ≡ ok (xs, record { at = at + length (each f xs ++ ending); left = tail })
  unfolding loop
  Takes-loop f ending xs zero at tail h k l = absurd (omega arith)
  Takes-loop f ending [] (suc n) at tail h k l = rw (k at tail) refl
  Takes-loop f ending (x ∷ xs) (suc n) at tail h k l =
      let rest = each f xs ++ (ending ++ tail) in
      let e : at + length (f x) + length (each f xs ++ ending)
          ≡ at + (length (f x) + length (each f xs ++ ending)) =
        omega arith in
      rw
        (
          append_assoc (f x) (each f xs) (ending ++ tail),
          append_assoc (f x) (each f xs) ending,
          h.0 at rest,
          Takes-loop f ending xs n (at + length (f x)) tail h.1 k (omega arith),
          e,
          length-append (f x) (each f xs ++ ending),
        )
        refl

  length-each :
      (f : A → List ℕ) (xs : List A) → ((x : A) → 0 < length (f x)) → length xs ≤ length (each f xs)
  length-each f [] h = omega arith
  length-each f (x ∷ xs) h =
      let here = h x in
      let later = length-each f xs h in rw (length-append (f x) (each f xs)) (omega arith)

  pub Takes-loop_all :
      (f : A → List ℕ) (ending : List ℕ) (xs : List A)
      → ((x : A) → 0 < length (f x))
      → All (λ x. Takes step (f x) (some x)) xs
      → Takes step ending none
      → Takes loop_all (each f xs ++ ending) xs
  unfolding loop_all
  Takes-loop_all f ending xs nonempty h k at tail =
      let l = length-each f xs nonempty in
      let left = each f xs ++ (ending ++ tail) in
      let m : length left ≡ length (each f xs) + length (ending ++ tail) =
        length-append (each f xs) (ending ++ tail) in
      rw (append_assoc (each f xs) ending tail)
        (Takes-loop f ending xs (suc (length left)) at tail h k (omega arith))

  round-cong :
      (f g : Input → Outcome E (List A × Input)) (i : Input) (o : Outcome E (Option A × Input))
      → ((a : A) (j : Input) → o ≡ ok (some a, j) → f j ≡ g j)
      → round f o ≡ round g o
  round-cong f g i (ok (none, j)) h = refl
  round-cong f g i (ok (some a, j)) h = rw (h a j refl) refl
  round-cong f g i (err e) h = refl
  round-cong f g i panicked h = refl

  -- Where every item takes input, the fuel of `loop_all` is enough: any more gives the same.
  pub loop-enough :
      (n m : ℕ) (i : Input)
      → ((a : A) (i j : Input) → step i ≡ ok (some a, j) → length j.left < length i.left)
      → length i.left < n
      → length i.left < m
      → loop n i ≡ loop m i
  unfolding loop
  loop-enough zero m i h k l = absurd (omega arith)
  loop-enough (suc n) zero i h k l = absurd (omega arith)
  loop-enough (suc n) (suc m) i h k l =
      round-cong (loop n) (loop m) i (step i)
        (λ a j e. let shorter = h a i j e in loop-enough n m j h (omega arith) (omega arith))
