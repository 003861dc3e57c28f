-- ===== src/Auth/Pgpass/Lines.antt =====
-- A line written with every colon and backslash of its fields escaped is read back.
use halephant.Prelude.{
  ℕ, ◌≡◌, ◌++◌, ◌==◌, ◌∙◌, ap, refl, sym, true, false, List, [], ◌∷◌, some, Text, ltb, length,
  if◌then◌else◌, append_assoc, append-nil, arith, Bool-cases, inl, inr,
}
use halephant.Auth.Pgpass.{parse_pattern, scan_fields, entry_of, parse_line}

pub escape : Text → Text
escape [] = []
escape (c ∷ rest) =
    let tail = escape rest in
    if c == b':' then b'\\' ∷ b':' ∷ tail else if c == b'\\' then b'\\' ∷ b'\\' ∷ tail else c ∷ tail

scan_fields-plain :
    (fields : List Text) (current : Text) (c : ℕ) (rest : Text)
    → (c == b':') ≡ false
    → (c == b'\\') ≡ false
    → scan_fields fields current false (c ∷ rest)
      ≡ scan_fields fields (current ++ c ∷ []) false rest
unfolding scan_fields
scan_fields-plain fields current c rest e f = ground arith

scan_fields-escape :
    (fields : List Text) (current s rest : Text)
    → scan_fields fields current false (escape s ++ rest)
      ≡ scan_fields fields (current ++ s) false rest
unfolding scan_fields escape
scan_fields-escape fields current [] rest =
    ap (λ c. scan_fields fields c false rest) (sym (append-nil current))
scan_fields-escape fields current (c ∷ s) rest =
    let ih =
      scan_fields-escape fields (current ++ c ∷ []) s rest
      ∙ ap (λ x. scan_fields fields x false rest) (append_assoc current (c ∷ []) s) in
    elim (Bool-cases (c == b':')) [
      | inl e ↦ let q : c ≡ 58 = ground arith in rw (q, escape, scan_fields) (rw q at ih)
      | inr e ↦ elim (Bool-cases (c == b'\\')) [
        | inl f ↦ let q : c ≡ 92 = ground arith in rw (q, escape, scan_fields) (rw q at ih)
        | inr f ↦ rw (e, f, escape) (scan_fields-plain fields current c (escape s ++ rest) e f ∙ ih)
      ]
    ]

scan_fields-colon :
    (fields : List Text) (current rest : Text)
    → ltb (length fields) 4 ≡ true
    → scan_fields fields current false (b':' ∷ rest)
      ≡ scan_fields (fields ++ current ∷ []) [] false rest
unfolding scan_fields
scan_fields-colon fields current rest h = ground arith

pub print_line : Text → Text → Text → Text → Text → Text
unfolding escape
print_line h p d u w =
    escape h
    ++ b':' ∷ (escape p ++ b':' ∷ (escape d ++ b':' ∷ (escape u ++ b':' ∷ (escape w ++ []))))

scan_fields-field :
    (fields : List Text) (s rest : Text)
    → ltb (length fields) 4 ≡ true
    → scan_fields fields [] false (escape s ++ b':' ∷ rest)
      ≡ scan_fields (fields ++ s ∷ []) [] false rest
scan_fields-field fields s rest h =
    scan_fields-escape fields [] s (b':' ∷ rest) ∙ scan_fields-colon fields s rest h

-- A line whose five fields are escaped is read as the entry of these fields, of which those but the
-- password are wildcards if they are a lone star.
pub parse_line-print_line :
    (h p d u w : Text)
    → parse_line (print_line h p d u w)
      ≡ some (record {
        hostname = parse_pattern h;
        port = parse_pattern p;
        database = parse_pattern d;
        username = parse_pattern u;
        password = w;
      })
unfolding parse_line print_line scan_fields
parse_line-print_line h p d u w = ap entry_of (
    scan_fields-field [] h _ refl
    ∙ scan_fields-field (h ∷ []) p _ refl
    ∙ scan_fields-field (h ∷ p ∷ []) d _ refl
    ∙ scan_fields-field (h ∷ p ∷ d ∷ []) u _ refl
    ∙ scan_fields-escape (h ∷ p ∷ d ∷ u ∷ []) [] w [])
