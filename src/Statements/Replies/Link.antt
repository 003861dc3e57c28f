-- ===== src/Statements/Replies/Link.antt =====
-- One server connection with its traffic: what halephant records, the messages it has sent that
-- are not answered yet, and what the server holds. The server is PostgreSQL, so it is a parameter.
pub mod Aligned
pub mod Held
pub mod Names
pub mod Sound
pub mod Gaps
use halephant.Prelude.{
  ℕ, ◌≡◌, ◌++◌, ite, Bool, true, false, List, [], ◌∷◌, Option, none, some, Text, text_dec,
}
use halephant.Statements.Lru
use halephant.Statements.Replies.{
  Reply, ParseReply, PreparedStatements, ClientParse, synthesize, Reprepare, already_prepared,
  prepare, new, note_client_parse, note_reprepare, note_portal_close, next_parse_reply,
  next_close_reply, roll_back_after_error, discard_all, reset_pending,
}

-- The documented effect on a session's prepared statements of `Parse`, of `Close` for a
-- statement, and of `DISCARD ALL`.
pub record Backend : Type 1 where
  pub State : Type 0
  pub start : State
  pub holds : State → Text → Bool
  pub parse : Text → State → State
  pub close : Text → State → State
  pub discard : State → State
  pub holds-start : (n : Text) → holds start n ≡ false
  pub holds-parse :
      (c n : Text) (s : State) → holds (parse c s) n ≡ ite (text_dec c n) true (holds s n)
  pub holds-close :
      (c n : Text) (s : State) → holds (close c s) n ≡ ite (text_dec c n) false (holds s n)
  pub holds-discard : (n : Text) (s : State) → holds (discard s) n ≡ false

-- What halephant sends on the connection, as far as prepared statements are concerned: a `Parse`
-- with the owner of its reply, the `Close` of an evicted statement, a client's portal `Close`, a
-- `Query` that discards everything, and a client's `Sync`.
pub data Sent : Type 0 where
  parse : Reply → Text → Sent
  evict : Text → Sent
  close_portal : Sent
  discard : Sent
  sync : Sent

pub record Link (S : Type 0) : Type 0 where
  pub statements : PreparedStatements
  pub inflight : List Sent
  pub held : S

-- `send_eviction`.
abbrev pub evictions : Option Text → List Sent
evictions none = []
evictions (some name) = evict name ∷ []

abbrev pub sent_for_parse : Text → ClientParse → List Sent
sent_for_parse canon synthesize = []
sent_for_parse canon (ClientParse.forward eviction) =
    evictions eviction ++ parse Reply.forward canon ∷ []

abbrev pub sent_for_reprepare : Text → Reprepare → List Sent
sent_for_reprepare canon already_prepared = []
sent_for_reprepare canon (prepare eviction) = evictions eviction ++ parse Reply.suppress canon ∷ []

-- The reply to a message, as the forwarding loop takes it.
abbrev pub answer : Sent → PreparedStatements → PreparedStatements
answer (parse _ _) p = (next_parse_reply p).0
answer (evict _) p = (next_close_reply p).0
answer close_portal p = (next_close_reply p).0
answer discard p = p
answer sync p = p

-- After an error in the extended protocol the server skips up to the next `Sync`.
abbrev pub after_sync : List Sent → List Sent
after_sync [] = []
after_sync (sync ∷ rest) = rest
after_sync (m ∷ rest) = after_sync rest

abbrev pub has_sync : List Sent → Bool
has_sync [] = false
has_sync (sync ∷ rest) = true
has_sync (m ∷ rest) = has_sync rest

-- No message in flight draws a `ParseComplete` or a `CloseComplete`.
abbrev pub quiet : List Sent → Bool
quiet [] = true
quiet (discard ∷ rest) = quiet rest
quiet (sync ∷ rest) = quiet rest
quiet (m ∷ rest) = false

module _ (b : Backend) where
  abbrev pub apply : b.State → Sent → b.State
  apply s (parse _ c) = b.parse c s
  apply s (evict c) = b.close c s
  apply s close_portal = s
  apply s discard = b.discard s
  apply s sync = s

  abbrev pub apply_all : b.State → List Sent → b.State
  apply_all s [] = s
  apply_all s (m ∷ rest) = apply_all (apply s m) rest

  abbrev pub open_link : ℕ → Link b.State
  open_link max = record { statements = new max; inflight = []; held = b.start }

  abbrev pub client_parse : Text → Link b.State → Link b.State
  client_parse canon l =
      let (p, outcome) = note_client_parse l.statements canon in
      record l { statements = p; inflight = l.inflight ++ sent_for_parse canon outcome }

  abbrev pub reprepare : Text → Link b.State → Link b.State
  reprepare canon l =
      let (p, outcome) = note_reprepare l.statements canon in
      record l { statements = p; inflight = l.inflight ++ sent_for_reprepare canon outcome }

  abbrev pub portal_close : Link b.State → Link b.State
  portal_close l = record l {
    statements = note_portal_close l.statements;
    inflight = l.inflight ++ close_portal ∷ [];
  }

  abbrev pub discard_query : Link b.State → Link b.State
  discard_query l = record l {
    statements = discard_all l.statements;
    inflight = l.inflight ++ discard ∷ [];
  }

  abbrev pub client_sync : Link b.State → Link b.State
  client_sync l = record l { inflight = l.inflight ++ sync ∷ [] }

  abbrev pub answered : Sent → List Sent → Link b.State → Link b.State
  answered m rest l = record {
    statements = answer m l.statements;
    inflight = rest;
    held = apply l.held m;
  }

  -- An error in the extended protocol: what stands before the next `Sync` is skipped.
  abbrev pub failed : Link b.State → Link b.State
  failed l = record {
    statements = roll_back_after_error l.statements;
    inflight = after_sync l.inflight;
    held = l.held;
  }

  -- An error in a simple query: the server skips no other message. halephant rolls back all the same.
  abbrev pub query_failed : List Sent → Link b.State → Link b.State
  query_failed rest l = record {
    statements = roll_back_after_error l.statements;
    inflight = rest;
    held = l.held;
  }

  -- The next checkout clears the queues. The reset before it may stop at the `ReadyForQuery` of an
  -- earlier query, and then the replies to some of the messages are still to come.
  abbrev pub next_session : List Sent → List Sent → Link b.State → Link b.State
  next_session read unread l = record {
    statements = reset_pending l.statements;
    inflight = unread;
    held = apply_all l.held read;
  }

  -- Calls of the proxy and replies of the server, in any order. A query that is not `DISCARD ALL` is
  -- not among the messages in flight, so its error leaves them.
  pub data Step : Link b.State → Link b.State → Type 0 where
    parses : (l : Link b.State) (canon : Text) → Step l (client_parse canon l)
    reprepares : (l : Link b.State) (canon : Text) → Step l (reprepare canon l)
    closes : (l : Link b.State) → Step l (portal_close l)
    discards : (l : Link b.State) → Step l (discard_query l)
    syncs : (l : Link b.State) → Step l (client_sync l)
    replies :
        (l : Link b.State) (m : Sent) (rest : List Sent)
        → l.inflight ≡ m ∷ rest
        → Step l (answered m rest l)
    errors : (l : Link b.State) → Step l (failed l)
    query_errors : (l : Link b.State) → Step l (query_failed l.inflight l)
    discard_errors :
        (l : Link b.State) (rest : List Sent)
        → l.inflight ≡ discard ∷ rest
        → Step l (query_failed rest l)
    sessions :
        (l : Link b.State) (read unread : List Sent)
        → l.inflight ≡ read ++ unread
        → Step l (next_session read unread l)

  pub data Reach (l : Link b.State) : Link b.State → Type 0 where
    here : Reach l l
    next : {m n : Link b.State} → Reach l m → Step m n → Reach l n

  -- Where halephant drops its records, at an error or a change of session, no `ParseComplete` or
  -- `CloseComplete` is still to come.
  abbrev pub DropsNone : {l m : Link b.State} → Step l m → Type 0
  DropsNone (parses l canon) = Unit
  DropsNone (reprepares l canon) = Unit
  DropsNone (closes l) = Unit
  DropsNone (discards l) = Unit
  DropsNone (syncs l) = Unit
  DropsNone (replies l m rest e) = Unit
  DropsNone (errors l) = quiet (after_sync l.inflight) ≡ true
  DropsNone (query_errors l) = quiet l.inflight ≡ true
  DropsNone (discard_errors l rest e) = quiet rest ≡ true
  DropsNone (sessions l read unread e) = quiet unread ≡ true

  abbrev pub NeverDrops : {l m : Link b.State} → Reach l m → Type 0
  NeverDrops here = Unit
  NeverDrops (next r s) = NeverDrops r × DropsNone s
