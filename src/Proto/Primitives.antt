-- ===== src/Proto/Primitives.antt =====
-- crates/halephant-core/src/proto/primitives.rs, over the operations of the parser library.
pub mod Wire
pub mod Takes
pub mod Loop
use halephant.Prelude.Utf8.{from_utf8}
use halephant.Prelude.{
  ℕ, zero, suc, ◌+◌, ◌*◌, ◌^◌, ◌==◌, Bool, not, List, [], ◌∷◌, Option, none, some, Text, ltb,
  if◌then◌else◌,
}
use halephant.Proto.Chumsky.{Outcome, ok, err, panicked, bind, Span, Input, Chumsky}
use halephant.Proto.Types.{FormatCode}

module _ (c : Chumsky) where
  -- Big-endian; a signed number is its bit pattern.
  unfoldable pub pg_int16 : c.Parser ℕ
  pg_int16 = c.mapped (λ r. r.0 * 256 + r.1) (c.and_then c.any c.any)

  unfoldable pub pg_int32 : c.Parser ℕ
  pg_int32 =
      c.mapped (λ r. ((r.0.0.0 * 256 + r.0.0.1) * 256 + r.0.1) * 256 + r.1)
        (c.and_then (c.and_then (c.and_then c.any c.any) c.any) c.any)

  unfoldable pub utf8_or : Span → Option Text → Outcome c.Rich Text
  utf8_or span (some text) = ok text
  utf8_or span none = err (c.rich_custom span)

  unfoldable pub pg_cstring : c.Parser Text
  unfolding utf8_or
  pg_cstring =
      c.try_map (λ bytes span. utf8_or span (from_utf8 bytes))
        (c.then_ignore (c.repeated (c.filter (λ b. not (b == 0)) c.any)) (c.just 0))

  -- `for _ in 0..count { items.push(inp.parse(item)?) }`.
  unfoldable pub parse_each :
      {A : Type 0} → c.Parser A → ℕ → Input → Outcome c.Rich (List A × Input)
  parse_each item zero i = ok ([], i)
  parse_each item (suc n) i =
      bind (c.go item i) (λ r. bind (parse_each item n r.1) (λ s. ok (r.0 ∷ s.0, s.1)))

  unfoldable pub nullable : ℕ → Input → Outcome c.Rich (Option (List ℕ) × Input)
  unfolding parse_each
  nullable len i =
      if ltb len (2 ^ 31)
      then bind (parse_each c.any len i) (λ r. ok (some r.0, r.1))
      else ok (none, i)

  -- A negative length is `NULL`.
  unfoldable pub pg_nullable_bytes : c.Parser (Option (List ℕ))
  unfolding nullable
  pg_nullable_bytes = c.custom (λ i. bind (c.go (pg_int32) i) (λ r. nullable r.0 r.1))

  -- A negative count, as a `usize`, is more than `Vec::with_capacity` can hold, and it panics.
  unfoldable pub counted : {A : Type 0} → c.Parser A → ℕ → Input → Outcome c.Rich (List A × Input)
  unfolding parse_each
  counted item count i = if ltb count (2 ^ 15) then parse_each item count i else panicked

  unfoldable pub pg_count_prefixed : {A : Type 0} → c.Parser A → c.Parser (List A)
  unfolding counted
  pg_count_prefixed item = c.custom (λ i. bind (c.go (pg_int16) i) (λ r. counted item r.0 r.1))

  unfoldable pub format_code : ℕ → Span → Outcome c.Rich FormatCode
  format_code raw span =
      if raw == 0
      then ok FormatCode.text
      else if raw == 1
      then ok FormatCode.binary
      else err (c.rich_custom span)

  unfoldable pub pg_format_code : c.Parser FormatCode
  unfolding format_code
  pg_format_code = c.try_map format_code (pg_int16)
