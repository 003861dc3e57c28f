-- ===== src/Statements/Replies/Link/Names.antt =====
-- A server session that keeps a set of names: there is such a session as Backend asks for.
use halephant.Prelude.Sets
use halephant.Prelude.Sets.{contains-insert, contains-remove}
use halephant.Prelude.{◌≡◌, refl, false, List, [], Text, text_eq}
use halephant.Statements.Replies.Link.{Backend}

pub contains-none : (n : Text) → Sets.contains n [] ≡ false
unfolding Sets.contains
contains-none n = refl

abbrev pub session : Backend
session = record {
  State = List Text;
  start = [];
  holds = λ s n. Sets.contains n s;
  parse = Sets.insert;
  close = Sets.remove;
  discard = λ s. [];
  holds-start = contains-none;
  holds-parse = λ c n s. contains-insert n c s;
  holds-close = λ c n s. contains-remove n c s;
  holds-discard = λ n s. contains-none n;
}
