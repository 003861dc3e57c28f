-- ===== src/Statements/Replies.antt =====
-- `PreparedStatements` of crates/halephant-core/src/connections/server.rs: the cache of one server
-- connection, and what is to be done with each `ParseComplete` and `CloseComplete` still to come.
pub mod Link
use halephant.Prelude.{
  ℕ, ◌++◌, Bool, List, [], ◌∷◌, Option, none, some, Text, text_eq, if◌then◌else◌,
}
use halephant.Statements.Lru
use halephant.Statements.Lru.{Lru}

pub data Reply : Type 0 where
  forward suppress : Reply

pub record ParseReply : Type 0 where
  pub reply : Reply
  pub canon : Text

pub record PreparedStatements : Type 0 where
  pub cache : Lru
  pub parse_replies : List ParseReply
  pub close_replies : List Reply

pub data ClientParse : Type 0 where
  synthesize : ClientParse
  forward : Option Text → ClientParse

pub data Reprepare : Type 0 where
  already_prepared : Reprepare
  prepare : Option Text → Reprepare

unfoldable pub new : ℕ → PreparedStatements
new max = record { cache = Lru.new max; parse_replies = []; close_replies = [] }

-- `close_replies.push_back(Reply::Suppress)`, where a name gave way.
pub queue_eviction : Option Text → List Reply → List Reply
queue_eviction none replies = replies
queue_eviction (some name) replies = replies ++ Reply.suppress ∷ []

unfoldable pub record_prepare : PreparedStatements → Text → Reply → PreparedStatements × Option Text
record_prepare p canon reply =
    let (cache, eviction) = Lru.insert p.cache canon in
    (
      record {
        cache = cache;
        parse_replies = p.parse_replies ++ record { reply = reply; canon = canon } ∷ [];
        close_replies = queue_eviction eviction p.close_replies;
      },
      eviction,
    )

unfoldable pub note_client_parse : PreparedStatements → Text → PreparedStatements × ClientParse
note_client_parse p canon =
    if Lru.contains p.cache canon
    then (record p { cache = Lru.touch p.cache canon }, synthesize)
    else let (q, eviction) = record_prepare p canon Reply.forward in
      (q, ClientParse.forward eviction)

unfoldable pub note_reprepare : PreparedStatements → Text → PreparedStatements × Reprepare
note_reprepare p canon =
    if Lru.contains p.cache canon
    then (record p { cache = Lru.touch p.cache canon }, already_prepared)
    else let (q, eviction) = record_prepare p canon Reply.suppress in (q, prepare eviction)

unfoldable pub note_portal_close : PreparedStatements → PreparedStatements
note_portal_close p = record p { close_replies = p.close_replies ++ Reply.forward ∷ [] }

take_parse_reply : PreparedStatements → List ParseReply → PreparedStatements × Reply
take_parse_reply p [] = (p, Reply.forward)
take_parse_reply p (r ∷ rest) = (record p { parse_replies = rest }, r.reply)

unfoldable pub next_parse_reply : PreparedStatements → PreparedStatements × Reply
unfolding take_parse_reply
next_parse_reply p = take_parse_reply p p.parse_replies

take_close_reply : PreparedStatements → List Reply → PreparedStatements × Reply
take_close_reply p [] = (p, Reply.forward)
take_close_reply p (r ∷ rest) = (record p { close_replies = rest }, r)

unfoldable pub next_close_reply : PreparedStatements → PreparedStatements × Reply
unfolding take_close_reply
next_close_reply p = take_close_reply p p.close_replies

-- `while let Some(pending) = self.parse_replies.pop_front()`.
unfoldable pub roll_back : Lru → List ParseReply → Lru
roll_back cache [] = cache
roll_back cache (pending ∷ rest) = roll_back (Lru.remove cache pending.canon) rest

unfoldable pub roll_back_after_error : PreparedStatements → PreparedStatements
roll_back_after_error p = record {
  cache = roll_back p.cache p.parse_replies;
  parse_replies = [];
  close_replies = [];
}

unfoldable pub discard_all : PreparedStatements → PreparedStatements
discard_all p = record p { cache = Lru.clear p.cache }

unfoldable pub reset_pending : PreparedStatements → PreparedStatements
reset_pending p = record p { parse_replies = []; close_replies = [] }
