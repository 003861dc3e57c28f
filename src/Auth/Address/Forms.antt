-- ===== src/Auth/Address/Forms.antt =====
-- Each form of an address is split into the host and the port it was written from.
use halephant.Prelude.{
  ◌==◌, ◌≡◌, ◌++◌, refl, sym, ap, ◌∙◌, append_assoc, Bool, true, false, [], ◌∷◌, none, some, Text,
  if◌then◌else◌, arith,
}
use halephant.Auth.Address.{
  has_char, after_bracket, prepend, split_bracket, cons_trimmed, trim_brackets, split_last,
  split_plain, split_bracketed, default_port, split_host_port,
}

-- The text does not begin with an opening bracket.
abbrev pub unbracketed : Text → Bool
unbracketed [] = true
unbracketed (c ∷ rest) = if c == b'[' then false else true

-- An address, with its host and its port.
pub data Form : Text → Text → Text → Type 0 where
  named :
      (host port : Text)
      → unbracketed (host ++ b':' ∷ port) ≡ true
      → has_char b':' host ≡ false
      → has_char b':' port ≡ false
      → Form (host ++ b':' ∷ port) host port
  bare :
      (host : Text)
      → unbracketed host ≡ true
      → has_char b':' host ≡ false
      → Form host host default_port
  -- An IPv6 address without brackets: it has more than one colon.
  colons :
      (first middle last : Text)
      → unbracketed (first ++ b':' ∷ (middle ++ b':' ∷ last)) ≡ true
      → has_char b':' last ≡ false
      → Form
          (first ++ b':' ∷ (middle ++ b':' ∷ last))
          (first ++ b':' ∷ (middle ++ b':' ∷ last))
          default_port
  bracketed :
      (host port : Text)
      → has_char b']' host ≡ false
      → Form (b'[' ∷ (host ++ b']' ∷ b':' ∷ port)) host port
  bracketed_bare :
      (host : Text)
      → has_char b']' host ≡ false
      → Form (b'[' ∷ (host ++ b']' ∷ [])) host default_port

split_last-none : (t : Text) → has_char b':' t ≡ false → split_last t ≡ none
unfolding split_last has_char
split_last-none [] h = refl
split_last-none (c ∷ t) h = ground (arith, split_last-none t)

split_last-append :
    (host port : Text)
    → has_char b':' port ≡ false
    → split_last (host ++ b':' ∷ port) ≡ some (host, port)
unfolding split_last has_char
split_last-append [] port h = rw (split_last-none port h, split_last) refl
split_last-append (c ∷ host) port h = rw (split_last-append host port h, split_last) refl

-- Whatever stands before it, a colon is found.
has_colon : (first middle : Text) → has_char b':' (first ++ b':' ∷ middle) ≡ true
unfolding has_char
has_colon [] middle = refl
has_colon (c ∷ first) middle = ground (arith, has_colon first middle)

split_plain-colons :
    (first middle last : Text)
    → has_char b':' last ≡ false
    → split_plain (first ++ b':' ∷ (middle ++ b':' ∷ last))
      ≡ (first ++ b':' ∷ (middle ++ b':' ∷ last), default_port)
unfolding split_plain
split_plain-colons first middle last h =
    let joined = append_assoc first (b':' ∷ middle) (b':' ∷ last) in
    let found = split_last-append (first ++ b':' ∷ middle) last h in
    rw (sym joined, found, has_colon first middle, split_plain)
      (ap (λ t. (t, default_port)) (sym joined))

split_bracket-append :
    (host port : Text)
    → has_char b']' host ≡ false
    → split_bracket (host ++ b']' ∷ b':' ∷ port) ≡ some (host, port)
unfolding split_bracket has_char after_bracket prepend
split_bracket-append [] port h = refl
split_bracket-append (c ∷ host) port h = ground (arith, split_bracket-append host port)

split_bracket-none :
    (host : Text) → has_char b']' host ≡ false → split_bracket (host ++ b']' ∷ []) ≡ none
unfolding split_bracket has_char after_bracket prepend
split_bracket-none [] h = refl
split_bracket-none (c ∷ host) h = ground (arith, split_bracket-none host)

trim_brackets-append :
    (host : Text) → has_char b']' host ≡ false → trim_brackets (host ++ b']' ∷ []) ≡ host
unfolding trim_brackets cons_trimmed has_char
trim_brackets-append [] h = refl
trim_brackets-append (c ∷ host) h = ground (arith, trim_brackets-append host)

split_plain-of : (t : Text) → unbracketed t ≡ true → split_host_port t ≡ split_plain t
unfolding split_host_port
split_plain-of [] h = refl
split_plain-of (c ∷ t) h = ground arith

-- A host name or an IPv4 address with a port or without, a bracketed address with a port or
-- without, and an address with more than one colon and no brackets, is split into its host, free of brackets, and its port, 5432 if there is none.
pub split_host_port-Form :
    {t host port : Text} → Form t host port → split_host_port t ≡ (host, port)
split_host_port-Form (named host port u h p) =
    split_plain-of (host ++ b':' ∷ port) u
    ∙ (unfold split_plain in rw (split_last-append host port p, h, split_plain) refl)
split_host_port-Form (bare host u h) =
    split_plain-of host u ∙ (unfold split_plain in rw (split_last-none host h, split_plain) refl)
split_host_port-Form (colons first middle last u h) =
    split_plain-of (first ++ b':' ∷ (middle ++ b':' ∷ last)) u
    ∙ split_plain-colons first middle last h
split_host_port-Form (bracketed host port h) =
    unfold split_host_port split_bracketed in
    rw (split_bracket-append host port h, split_bracketed) refl
split_host_port-Form (bracketed_bare host h) =
    unfold split_host_port split_bracketed in
    rw (split_bracket-none host h, trim_brackets-append host h, split_bracketed) refl
