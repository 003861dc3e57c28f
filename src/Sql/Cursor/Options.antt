-- ===== src/Sql/Cursor/Options.antt =====
-- Which transaction mode the scan returns.
use halephant.Prelude.{
  ◌≡◌, refl, sym, ◌∙◌, Bool, true, false, List, [], ◌∷◌, Option, none, some, Text, text_dec,
  ℕ_discrete, codes, arith, Option-cases, inl, inr,
}
use halephant.Sql.Ast.{TransactionOptions}
use halephant.Sql.Cursor.{is_word, read_mode, scan_options, parse_transaction_options}
use halephant.Sql.Tokens.{Token, word}

-- The mode of the last pair of neighbours that spells one, if any.
abbrev pub last_mode : Option Bool → List Token → Option Bool
last_mode found [] = found
last_mode found (t ∷ []) = found
last_mode found (t ∷ next ∷ rest) =
    last_mode (elim (read_mode t next) [ some m ↦ some m | none ↦ found ]) (next ∷ rest)

pub word_of_is_word : (w : Text) (t : Token) → is_word w t ≡ true → t ≡ word w
unfolding is_word
word_of_is_word w (word v) h = ground arith
word_of_is_word w _ h = absurd (ground arith)

only_not_read : (t : Token) → is_word (codes "only") t ≡ true → is_word (codes "read") t ≡ false
only_not_read t h =
    rw (word_of_is_word (codes "only") t h) (unfold is_word text_dec ℕ_discrete in refl)

write_not_read : (t : Token) → is_word (codes "write") t ≡ true → is_word (codes "read") t ≡ false
write_not_read t h =
    rw (word_of_is_word (codes "write") t h) (unfold is_word text_dec ℕ_discrete in refl)

-- The word that ends a mode begins none.
no_overlap :
    (t next after : Token) (m : Bool) → read_mode t next ≡ some m → read_mode next after ≡ none
unfolding read_mode
no_overlap t next after m e = ground (arith, only_not_read next, write_not_read next)

last_mode_skip :
    (found : Option Bool) (t next : Token) (rest : List Token) (m : Bool)
    → read_mode t next ≡ some m
    → last_mode found (next ∷ rest) ≡ last_mode found rest
last_mode_skip found t next [] m e = refl
last_mode_skip found t next (after ∷ rest) m e = rw (no_overlap t next after m e)

scan_options-last_mode :
    (opts : TransactionOptions) (ts : List Token)
    → (scan_options opts ts).read_only ≡ last_mode opts.read_only ts
unfolding scan_options
scan_options-last_mode opts [] = refl
scan_options-last_mode opts (t ∷ []) = refl
scan_options-last_mode opts (t ∷ next ∷ rest) = elim (Option-cases (read_mode t next)) [
  | inl e ↦ rw (e, scan_options) (scan_options-last_mode opts (next ∷ rest))
  | inr (m, e) ↦
      rw (e, scan_options)
        (scan_options-last_mode (record opts { read_only = some m }) rest
          ∙ sym (last_mode_skip (some m) t next rest m e))
]

-- The scan returns the mode of the last `READ ONLY` or `READ WRITE` among all the tokens behind the
-- keyword, and none if there is no such pair; any other `READ` is passed over.
pub parse_transaction_options-last_mode :
    (ts : List Token) → (parse_transaction_options ts).read_only ≡ last_mode none ts
unfolding parse_transaction_options
parse_transaction_options-last_mode = scan_options-last_mode (record { read_only = none })
