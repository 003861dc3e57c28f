-- ===== src/Proto/Primitives/Takes.antt =====
-- That the parsers of crates/halephant-core/src/proto/primitives.rs take the wire form of their values.
use halephant.Prelude.Decoded.{from_utf8-as_bytes, as_bytes-nonzero}
use halephant.Prelude.Utf8.{as_bytes, from_utf8}
use halephant.Prelude.{
  ℕ, suc, ◌+◌, ◌*◌, ◌/◌, ◌%◌, ◌^◌, ◌≡◌, ◌<◌, ◌++◌, ◌∙◌, ap, refl, ◌==◌, true, false, not, List, [],
  ◌∷◌, Option, none, some, Text, ltb, length, length-append, append_assoc, All, arith,
}
use halephant.Proto.Chumsky.{Outcome, ok, err, bind, Input, Chumsky}
use halephant.Proto.Primitives.{
  pg_int16, pg_int32, utf8_or, pg_cstring, parse_each, nullable, pg_nullable_bytes, counted,
  pg_count_prefixed, format_code, pg_format_code,
}
use halephant.Proto.Types.{FormatCode}
use halephant.Proto.Primitives.Wire.{
  be16, be32, IsCString, cstring, nullable_bytes, each, count_prefixed, code, Takes, Takes-done,
  Takes-bind, Takes-then,
}

module _ (c : Chumsky) where
  pub Takes-any : (b : ℕ) → Takes (c.go c.any) (b ∷ []) b
  Takes-any b at tail = rw (c.go-any (record { at = at; left = b ∷ tail })) refl

  pub Takes-mapped :
      {A B : Type 0}
      → (f : A → B) (p : c.Parser A) (w : List ℕ) (a : A) → Takes (c.go p) w a
      → Takes (c.go (c.mapped f p)) w (f a)
  Takes-mapped f p w a h at tail =
      rw (c.go-mapped f p (record { at = at; left = w ++ tail }), h at tail) refl

  pub Takes-and_then :
      {A B : Type 0}
      → (p : c.Parser A) (q : c.Parser B) (w v : List ℕ) (a : A) (b : B) → Takes (c.go p) w a
      → Takes (c.go q) v b
      → Takes (c.go (c.and_then p q)) (w ++ v) (a, b)
  Takes-and_then p q w v a b h k at tail =
      let e : at + length w + length v ≡ at + (length w + length v) = omega arith in
      rw
        (
          c.go-and_then p q (record { at = at; left = (w ++ v) ++ tail }),
          append_assoc w v tail,
          h at (v ++ tail),
          k (at + length w) tail,
          e,
          length-append w v,
        )
        refl

  pub Takes-custom :
      {A : Type 0}
      → (f : Input → Outcome c.Rich (A × Input)) (w : List ℕ) (a : A) → Takes f w a
      → Takes (c.go (c.custom f)) w a
  Takes-custom f w a h at tail =
      rw (c.go-custom f (record { at = at; left = w ++ tail })) (h at tail)

  pub Takes-int16 : (n : ℕ) → n < 2 ^ 16 → Takes (c.go (pg_int16 c)) (be16 n) n
  unfolding pg_int16
  Takes-int16 n h at tail =
      let e : n / 256 % 256 * 256 + n % 256 ≡ n = omega arith in
      Takes-mapped (λ r. r.0 * 256 + r.1) (c.and_then c.any c.any) (be16 n) _
        (Takes-and_then c.any c.any (n / 256 % 256 ∷ []) (n % 256 ∷ []) _ _ (Takes-any _)
          (Takes-any _))
        at tail
      ∙ ap (λ m. ok (m, record { at = at + 2; left = tail })) e

  pub Takes-int32 : (n : ℕ) → n < 2 ^ 32 → Takes (c.go (pg_int32 c)) (be32 n) n
  unfolding pg_int32
  Takes-int32 n h at tail =
      let b0 = n / 16777216 % 256 in
      let b1 = n / 65536 % 256 in
      let b2 = n / 256 % 256 in
      let b3 = n % 256 in
      let e : ((b0 * 256 + b1) * 256 + b2) * 256 + b3 ≡ n = omega arith in
      Takes-mapped (λ r. ((r.0.0.0 * 256 + r.0.0.1) * 256 + r.0.1) * 256 + r.1)
        (c.and_then (c.and_then (c.and_then c.any c.any) c.any) c.any) (be32 n) (((b0, b1), b2), b3)
        (Takes-and_then (c.and_then (c.and_then c.any c.any) c.any) c.any (b0 ∷ b1 ∷ b2 ∷ [])
          (b3 ∷ []) _ _
          (Takes-and_then (c.and_then c.any c.any) c.any (b0 ∷ b1 ∷ []) (b2 ∷ []) _ _
            (Takes-and_then c.any c.any (b0 ∷ []) (b1 ∷ []) _ _ (Takes-any b0) (Takes-any b1))
            (Takes-any b2))
          (Takes-any b3))
        at tail
      ∙ ap (λ m. ok (m, record { at = at + 4; left = tail })) e

  abbrev pub nonzero : c.Parser ℕ
  nonzero = c.filter (λ b. not (b == 0)) c.any

  nonzero-zero :
      (at : ℕ) (tail : List ℕ)
      → c.go nonzero (record { at = at; left = 0 ∷ tail })
        ≡ err (c.unexpected (record { at = at; left = 0 ∷ tail }))
  nonzero-zero at tail =
      rw
        (
          c.go-filter (λ b. not (b == 0)) c.any (record { at = at; left = 0 ∷ tail }),
          c.go-any (record { at = at; left = 0 ∷ tail }),
        )
        refl

  pub nonzero-byte :
      (at b : ℕ) (tail : List ℕ)
      → (b == 0) ≡ false
      → c.go nonzero (record { at = at; left = b ∷ tail })
        ≡ ok (b, record { at = at + 1; left = tail })
  nonzero-byte at b tail h =
      rw
        (
          c.go-filter (λ b. not (b == 0)) c.any (record { at = at; left = b ∷ tail }),
          c.go-any (record { at = at; left = b ∷ tail }),
          h,
        )
        refl

  Takes-nonzeros :
      (w : List ℕ) (at : ℕ) (tail : List ℕ)
      → All (λ b. (b == 0) ≡ false) w
      → c.go (c.repeated nonzero) (record { at = at; left = w ++ 0 ∷ tail })
        ≡ ok (w, record { at = at + length w; left = 0 ∷ tail })
  Takes-nonzeros [] at tail h =
      let e : at ≡ at + 0 = omega arith in
      c.go-repeated-stop nonzero (record { at = at; left = 0 ∷ tail }) _ (nonzero-zero at tail)
      ∙ ap (λ n. ok ([], record { at = n; left = 0 ∷ tail })) e
  Takes-nonzeros (b ∷ w) at tail h =
      let e : at + 1 + length w ≡ at + suc (length w) = omega arith in
      rw
        (
          c.go-repeated-more nonzero (record { at = at; left = b ∷ (w ++ 0 ∷ tail) })
              (record { at = at + 1; left = w ++ 0 ∷ tail }) b
              (nonzero-byte at b (w ++ 0 ∷ tail) h.0) (omega arith),
          Takes-nonzeros w (at + 1) tail h.1,
          e,
        )
        refl

  Takes-just : (n : ℕ) → Takes (c.go (c.just n)) (n ∷ []) n
  Takes-just n at tail =
      let e : (n == n) ≡ true = ground arith in
      rw
        (
          c.go-just n (record { at = at; left = n ∷ tail }),
          c.go-any (record { at = at; left = n ∷ tail }),
          e,
        )
        refl

  pub Takes-cstring : (t : Text) → IsCString t → Takes (c.go (pg_cstring c)) (cstring t) t
  unfolding pg_cstring utf8_or
  Takes-cstring t h at tail =
      let w = as_bytes t in
      let e : at + length w + 1 ≡ at + (length w + 1) = omega arith in
      rw
        (
          append_assoc w (0 ∷ []) tail,
          c.go-try_map (λ bytes span. utf8_or c span (from_utf8 bytes))
              (c.then_ignore (c.repeated nonzero) (c.just 0))
              (record { at = at; left = w ++ 0 ∷ tail }),
          c.go-then_ignore (c.repeated nonzero) (c.just 0)
              (record { at = at; left = w ++ 0 ∷ tail }),
          Takes-nonzeros w at tail (as_bytes-nonzero t h.1),
          Takes-just 0 (at + length w) tail,
          from_utf8-as_bytes t h.0,
          e,
          length-append w (0 ∷ []),
        )
        refl

  pub Takes-each :
      {A : Type 0}
      → (item : c.Parser A) (f : A → List ℕ) (xs : List A) → All (λ x. Takes (c.go item) (f x) x) xs
      → Takes (parse_each c item (length xs)) (each f xs) xs
  unfolding parse_each
  Takes-each item f [] h = Takes-done []
  Takes-each item f (x ∷ xs) h =
      Takes-bind (c.go item)
        (λ a i. bind (parse_each c item (length xs) i) (λ s. ok (a ∷ s.0, s.1))) (f x) (each f xs) x
        (x ∷ xs) h.0
        (Takes-then (parse_each c item (length xs)) (λ ys. x ∷ ys) (each f xs) xs
          (Takes-each item f xs h.1))

  Takes-counted :
      {A : Type 0}
      → (item : c.Parser A) (f : A → List ℕ) (xs : List A) → length xs < 2 ^ 15
      → All (λ x. Takes (c.go item) (f x) x) xs
      → Takes (counted c item (length xs)) (each f xs) xs
  unfolding counted
  Takes-counted item f xs l h =
      let e : ltb (length xs) (2 ^ 15) ≡ true = ground arith in rw e (Takes-each item f xs h)

  pub Takes-count_prefixed :
      {A : Type 0}
      → (item : c.Parser A) (f : A → List ℕ) (xs : List A) → length xs < 2 ^ 15
      → All (λ x. Takes (c.go item) (f x) x) xs
      → Takes (c.go (pg_count_prefixed c item)) (count_prefixed f xs) xs
  unfolding pg_count_prefixed
  Takes-count_prefixed item f xs l h =
      Takes-custom (λ i. bind (c.go (pg_int16 c) i) (λ r. counted c item r.0 r.1))
        (count_prefixed f xs) xs
        (Takes-bind (c.go (pg_int16 c)) (counted c item) (be16 (length xs)) (each f xs) (length xs)
          xs (Takes-int16 (length xs) (omega arith)) (Takes-counted item f xs l h))

  Takes-bytes : (bytes : List ℕ) → Takes (parse_each c c.any (length bytes)) bytes bytes
  unfolding parse_each
  Takes-bytes [] = Takes-done []
  Takes-bytes (b ∷ bytes) =
      Takes-bind (c.go c.any)
        (λ a i. bind (parse_each c c.any (length bytes) i) (λ s. ok (a ∷ s.0, s.1))) (b ∷ []) bytes
        b (b ∷ bytes) (Takes-any b)
        (Takes-then (parse_each c c.any (length bytes)) (λ ys. b ∷ ys) bytes bytes
          (Takes-bytes bytes))

  -- A value that fits into its length field.
  abbrev pub IsNullable : Option (List ℕ) → Type 0
  IsNullable none = Unit
  IsNullable (some bytes) = length bytes < 2 ^ 31

  Takes-nullable :
      (bytes : List ℕ)
      → length bytes < 2 ^ 31
      → Takes (nullable c (length bytes)) bytes (some bytes)
  unfolding nullable
  Takes-nullable bytes l =
      let e : ltb (length bytes) (2 ^ 31) ≡ true = ground arith in
      rw e (Takes-then (parse_each c c.any (length bytes)) some bytes bytes (Takes-bytes bytes))

  Takes-null : Takes (nullable c 4294967295) [] none
  unfolding nullable
  Takes-null = Takes-done none

  pub Takes-nullable_bytes :
      (o : Option (List ℕ)) → IsNullable o → Takes (c.go (pg_nullable_bytes c)) (nullable_bytes o) o
  unfolding pg_nullable_bytes
  Takes-nullable_bytes none l =
      Takes-custom (λ i. bind (c.go (pg_int32 c) i) (λ r. nullable c r.0 r.1)) (nullable_bytes none)
        none
        (Takes-bind (c.go (pg_int32 c)) (nullable c) (be32 4294967295) [] 4294967295 none
          (Takes-int32 4294967295 (omega arith)) Takes-null)
  Takes-nullable_bytes (some bytes) l =
      Takes-custom (λ i. bind (c.go (pg_int32 c) i) (λ r. nullable c r.0 r.1))
        (nullable_bytes (some bytes)) (some bytes)
        (Takes-bind (c.go (pg_int32 c)) (nullable c) (be32 (length bytes)) bytes (length bytes)
          (some bytes) (Takes-int32 (length bytes) (omega arith)) (Takes-nullable bytes l))

  pub Takes-format_code : (f : FormatCode) → Takes (c.go (pg_format_code c)) (be16 (code f)) f
  unfolding pg_format_code format_code
  Takes-format_code FormatCode.text at tail =
      rw
        (
          c.go-try_map (format_code c) (pg_int16 c) (record { at = at; left = 0 ∷ 0 ∷ tail }),
          Takes-int16 0 (omega arith) at tail,
        )
        refl
  Takes-format_code FormatCode.binary at tail =
      rw
        (
          c.go-try_map (format_code c) (pg_int16 c) (record { at = at; left = 0 ∷ 1 ∷ tail }),
          Takes-int16 1 (omega arith) at tail,
        )
        refl
