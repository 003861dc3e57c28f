-- ===== src/Proto/Frontend/Ends.antt =====
-- The loops of the parsers end: every round that goes on takes input.
use halephant.Prelude.Utf8.{from_utf8}
use halephant.Prelude.{
  ℕ, zero, suc, ◌+◌, ◌≡◌, ◌<◌, ◌≤◌, ◌==◌, refl, subst, not, List, [], ◌∷◌, Option, none, some, Text,
  length, Bool-cases, inl, inr, arith,
}
use halephant.Proto.Chumsky.{Outcome, ok, err, panicked, bind, Span, Input, Chumsky}
use halephant.Proto.Frontend.Parsing.{parameter_after, parameter}
use halephant.Proto.Primitives.Loop.{round, loop, loop_all, loop-enough}
use halephant.Proto.Primitives.Takes.{nonzero-byte}
use halephant.Proto.Primitives.{utf8_or, pg_cstring}

-- A value that stands before less input than there was, or an error, but no panic.
abbrev pub Shrinks : {E A : Type 0} → ℕ → Outcome E (A × Input) → Type 0
Shrinks n (ok (a, j)) = length j.left < n
Shrinks n (err e) = Unit
Shrinks n panicked = ⊥

abbrev pub Stays : {E A : Type 0} → ℕ → Outcome E (A × Input) → Type 0
Stays n (ok (a, j)) = length j.left ≤ n
Stays n (err e) = Unit
Stays n panicked = ⊥

Stays-bind :
    {E A B : Type 0}
    → (n m : ℕ) (o : Outcome E (A × Input)) (g : A × Input → Outcome E (B × Input)) → Stays n o
    → ((r : A × Input) → length r.1.left ≤ n → Stays m (g r))
    → Stays m (bind o g)
Stays-bind n m (ok r) g h k = k r h
Stays-bind n m (err e) g h k = tt
Stays-bind n m panicked g h k = absurd h

Shrinks-bind :
    {E A B : Type 0}
    → (n m : ℕ) (o : Outcome E (A × Input)) (g : A × Input → Outcome E (B × Input)) → Stays n o
    → ((r : A × Input) → length r.1.left ≤ n → Shrinks m (g r))
    → Shrinks m (bind o g)
Shrinks-bind n m (ok r) g h k = k r h
Shrinks-bind n m (err e) g h k = tt
Shrinks-bind n m panicked g h k = absurd h

Shrinks-then :
    {E A B : Type 0}
    → (n m : ℕ) (o : Outcome E (A × Input)) (g : A × Input → Outcome E (B × Input)) → Shrinks n o
    → ((r : A × Input) → length r.1.left < n → Shrinks m (g r))
    → Shrinks m (bind o g)
Shrinks-then n m (ok r) g h k = k r h
Shrinks-then n m (err e) g h k = tt
Shrinks-then n m panicked g h k = absurd h

-- A round goes on with less input than there was, where a step takes some.
round-Stays :
    {E A : Type 0}
    → (n : ℕ) (later : Input → Outcome E (List A × Input)) (o : Outcome E (Option A × Input))
    → Shrinks n o
    → ((j : Input) → length j.left < n → Stays (length j.left) (later j))
    → Stays n (round later o)
round-Stays n later (ok (none, j)) h k = omega arith
round-Stays n later (ok (some a, j)) h k =
    Stays-bind (length j.left) n (later j) (λ s. ok (a ∷ s.0, s.1)) (k j h) (λ r l. omega arith)
round-Stays n later (err e) h k = tt
round-Stays n later panicked h k = absurd h

-- With a round more than bytes are left, the loop neither panics nor runs out of rounds.
loop-Stays :
    {E A : Type 0}
    → (step : Input → Outcome E (Option A × Input)) (n : ℕ) (i : Input)
    → ((j : Input) → Shrinks (length j.left) (step j))
    → length i.left < n
    → Stays (length i.left) (loop step n i)
unfolding loop
loop-Stays step zero i s h = absurd (omega arith)
loop-Stays step (suc n) i s h =
    round-Stays (length i.left) (loop step n) (step i) (s i)
      (λ j l. loop-Stays step n j s (omega arith))

Stays-returns : {E A : Type 0} → (n : ℕ) (o : Outcome E (A × Input)) → Stays n o → ¬ (o ≡ panicked)
Stays-returns n (ok r) h e = cc
Stays-returns n (err x) h e = cc
Stays-returns n panicked h e = h

module _ (c : Chumsky) where
  abbrev nonzero : c.Parser ℕ
  nonzero = c.filter (λ b. not (b == 0)) c.any

  nonzeros-Stays :
      (bytes : List ℕ) (at : ℕ)
      → Stays (length bytes) (c.go (c.repeated nonzero) (record { at = at; left = bytes }))
  nonzeros-Stays [] at =
      let e : c.go nonzero (record { at = at; left = [] })
          ≡ err (c.unexpected (record { at = at; left = [] })) =
        rw
          (
            c.go-filter (λ b. not (b == 0)) c.any (record { at = at; left = [] }),
            c.go-any (record { at = at; left = [] }),
          )
          refl in
      rw (c.go-repeated-stop nonzero (record { at = at; left = [] }) _ e) (omega arith)
  nonzeros-Stays (b ∷ bytes) at = elim (Bool-cases (b == 0)) [
    | inl z ↦
        let e : c.go nonzero (record { at = at; left = b ∷ bytes })
            ≡ err (c.unexpected (record { at = at; left = b ∷ bytes })) =
          rw
            (
              c.go-filter (λ b. not (b == 0)) c.any (record { at = at; left = b ∷ bytes }),
              c.go-any (record { at = at; left = b ∷ bytes }),
              z,
            )
            refl in
        rw (c.go-repeated-stop nonzero (record { at = at; left = b ∷ bytes }) _ e) (omega arith)
    | inr z ↦
        rw
          (c.go-repeated-more nonzero (record { at = at; left = b ∷ bytes })
            (record { at = at + 1; left = bytes }) b (nonzero-byte c at b bytes z) (omega arith))
          (Stays-bind (length bytes) (suc (length bytes))
            (c.go (c.repeated nonzero) (record { at = at + 1; left = bytes })) _
            (nonzeros-Stays bytes (at + 1)) (λ r h. omega arith))
  ]

  just-Shrinks :
      (n at : ℕ) (bytes : List ℕ)
      → Shrinks (length bytes) (c.go (c.just n) (record { at = at; left = bytes }))
  just-Shrinks n at [] =
      rw (c.go-just n (record { at = at; left = [] }), c.go-any (record { at = at; left = [] })) tt
  just-Shrinks n at (b ∷ bytes) =
      rw
        (
          c.go-just n (record { at = at; left = b ∷ bytes }),
          c.go-any (record { at = at; left = b ∷ bytes }),
        )
        (elim (Bool-cases (b == n)) [ inl e ↦ rw e (omega arith) | inr e ↦ rw e tt ])

  zero-Shrinks :
      (n : ℕ) (w : List ℕ) (j : Input)
      → length j.left ≤ n
      → Shrinks n (bind (c.go (c.just 0) j) (λ s. ok (w, s.1)))
  zero-Shrinks n w j h =
      Shrinks-then (length j.left) n (c.go (c.just 0) j) (λ s. ok (w, s.1))
        (just-Shrinks 0 j.at j.left) (λ r k. omega arith)

  decoded-Shrinks :
      (n : ℕ) (span : Span) (o : Option Text) (j : Input)
      → length j.left < n
      → Shrinks n (bind (utf8_or c span o) (λ t. ok (t, j)))
  unfolding utf8_or
  decoded-Shrinks n span (some t) j h = h
  decoded-Shrinks n span none j h = tt

  pg_cstring-Shrinks : (i : Input) → Shrinks (length i.left) (c.go (pg_cstring c) i)
  unfolding pg_cstring
  pg_cstring-Shrinks i =
      rw
        (
          c.go-try_map (λ bytes span. utf8_or c span (from_utf8 bytes))
              (c.then_ignore (c.repeated nonzero) (c.just 0)) i,
          c.go-then_ignore (c.repeated nonzero) (c.just 0) i,
        )
        (Shrinks-then (length i.left) (length i.left) _ _
          (Shrinks-bind (length i.left) (length i.left) (c.go (c.repeated nonzero) i) _
            (nonzeros-Stays i.left i.at) (λ r h. zero-Shrinks (length i.left) r.0 r.1 h))
          (λ r h. decoded-Shrinks (length i.left) _ (from_utf8 r.0) r.1 h))

  after-Shrinks :
      (n : ℕ) (key : Text) (j : Input) → length j.left < n → Shrinks n (parameter_after c key j)
  unfolding parameter_after
  after-Shrinks n [] j h = h
  after-Shrinks n (k ∷ key) j h =
      Shrinks-then (length j.left) n (c.go (pg_cstring c) j) (λ r. ok (some (k ∷ key, r.0), r.1))
        (pg_cstring-Shrinks j) (λ r l. omega arith)

  parameter-Shrinks : (i : Input) → Shrinks (length i.left) (parameter c i)
  unfolding parameter
  parameter-Shrinks i =
      Shrinks-then (length i.left) (length i.left) (c.go (pg_cstring c) i) _ (pg_cstring-Shrinks i)
        (λ r h. after-Shrinks (length i.left) r.0 r.1 h)

  -- The loop over the parameters of a startup ends on every input, well-formed or not, with the
  -- parameters or with an error: from as many rounds on as there are bytes left, and one more, it
  -- neither runs out of rounds nor panics, and any further number of rounds gives the same result.
  pub loop_all-parameter :
      (n : ℕ) (i : Input)
      → length i.left < n
      → (¬ (loop (parameter c) n i ≡ panicked))
        × (loop (parameter c) n i ≡ loop_all (parameter c) i)
  unfolding loop_all
  loop_all-parameter n i h = (
    Stays-returns (length i.left) (loop (parameter c) n i)
        (loop-Stays (parameter c) n i parameter-Shrinks h),
    loop-enough (parameter c) n (suc (length i.left)) i
        (λ a k j e. subst (Shrinks (length k.left)) e (parameter-Shrinks k)) h (omega arith),
  )
