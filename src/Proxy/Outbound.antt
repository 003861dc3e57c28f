-- ===== src/Proxy/Outbound.antt =====
-- `rewrite_outbound` of crates/halephant-core/src/proxy/prepared.rs, and the tracking of session
-- state in proxy/transaction.rs.
pub mod Follows
pub mod Sends
pub mod Replays
use halephant.Prelude.Sets
use halephant.Prelude.{ℕ, ◌++◌, Bool, true, false, List, [], ◌∷◌, Option, none, some, Text, text_eq}
use halephant.Proto.Backend.{parse_complete}
use halephant.Proto.Frontend.{Parse, Bind, Describe, Close, TargetKind, FrontendMessage}
use halephant.Proto.Types.{TransactionStatus}
use halephant.Proxy.Messages.{Front, send}
use halephant.Sql.Ast.{Statement, SetScope, ResetTarget, DiscardTarget}
use halephant.Sql.Parser.{parse_statement}
use halephant.Sql.Tokens.{Token}
use halephant.Statements.Client
use halephant.Statements.Replies
use halephant.Statements.Replies.{
  PreparedStatements, ClientParse, Reprepare, note_client_parse, note_reprepare, note_portal_close,
  discard_all,
}
use halephant.Statements.Store
use halephant.Statements.Store.{StatementStore}

-- The parts of `ServerConn` that a session changes, and all that was sent to the server.
pub record Server : Type 0 where
  pub statements : PreparedStatements
  pub dirty_vars : List Text
  pub last_tx_status : TransactionStatus
  pub sent : List FrontendMessage

unfoldable pub send_server : FrontendMessage → Server → Server
send_server m s = record s { sent = s.sent ++ m ∷ [] }

unfoldable pub send_eviction : Option Text → Server → Server
unfolding send_server
send_eviction none s = s
send_eviction (some evicted) s =
    send_server (FrontendMessage.close (record { kind = TargetKind.statement; name = evicted })) s

-- What becomes of a message: it goes to the server, it was answered, or the session fails.
pub data Rewritten : Type 0 where
  forwards : FrontendMessage → Rewritten
  consumed : Rewritten
  bails : Rewritten

-- With whether the statement is prepared; `false` is the `bail!`.
inject : Text → Option Parse → Option Text → Server → Server × Bool
unfolding send_eviction send_server
inject canon none eviction s = (s, false)
inject canon (some parse) eviction s = (
  send_server (FrontendMessage.parse (record parse { name = canon })) (send_eviction eviction s),
  true,
)

prepare_by : Reprepare → Text → StatementStore → Server → Server × Bool
unfolding inject
prepare_by Reprepare.already_prepared canon store s = (s, true)
prepare_by (Reprepare.prepare eviction) canon store s =
    inject canon (Store.get store canon) eviction s

unfoldable pub ensure_prepared : Text → StatementStore → Server → Server × Bool
unfolding prepare_by
ensure_prepared canon store s =
    let (statements, outcome) = note_reprepare s.statements canon in
    prepare_by outcome canon store (record s { statements = statements })

-- The message goes out once the statement is prepared.
when_prepared : FrontendMessage → Front → Server × Bool → Front × Server × Rewritten
when_prepared m c (s, true) = (c, s, forwards m)
when_prepared m c (s, false) = (c, s, bails)

-- A message that names a statement goes out under the canonical name, if there is one.
unfoldable pub rewrite_name :
    Option Text
    → FrontendMessage
    → (Text → FrontendMessage)
    → Front
    → Server
    → Front × Server × Rewritten
unfolding when_prepared
rewrite_name none unchanged renamed c s = (c, s, forwards unchanged)
rewrite_name (some canon) unchanged renamed c s =
    when_prepared (renamed canon) c (ensure_prepared canon c.store s)

rewrite_target : TargetKind → Describe → Front → Server → Front × Server × Rewritten
unfolding rewrite_name
rewrite_target TargetKind.portal d c s = (c, s, forwards (FrontendMessage.describe d))
rewrite_target TargetKind.statement d c s =
    rewrite_name (Client.resolve c.prepared d.name) (FrontendMessage.describe d)
      (λ canon. FrontendMessage.describe (record d { name = canon })) c s

rewrite_describe : Describe → Front → Server → Front × Server × Rewritten
unfolding rewrite_target
rewrite_describe d c s = rewrite_target d.kind d c s

-- A known statement is answered here, a new one goes to the server under its canonical name.
parse_by : ClientParse → Parse → Text → Front → Server → Front × Server × Rewritten
unfolding send send_eviction
parse_by ClientParse.synthesize parse canon c s = (send parse_complete c, s, consumed)
parse_by (ClientParse.forward eviction) parse canon c s =
    (c, send_eviction eviction s, forwards (FrontendMessage.parse (record parse { name = canon })))

module _ (sha256 : List ℕ → List ℕ) where
  rewrite_parse : Parse → Front → Server → Front × Server × Rewritten
  unfolding parse_by
  rewrite_parse parse c s =
      let (names, store, canon) = Client.register sha256 c.prepared parse c.store in
      let (statements, outcome) = note_client_parse s.statements canon in
      parse_by outcome parse canon (record c { prepared = names; store = store })
        (record s { statements = statements })

  unfoldable pub rewrite_outbound : FrontendMessage → Front → Server → Front × Server × Rewritten
  unfolding rewrite_parse rewrite_name rewrite_describe
  rewrite_outbound (FrontendMessage.parse parse) c s = rewrite_parse parse c s
  rewrite_outbound (FrontendMessage.bind bind) c s =
      rewrite_name (Client.resolve c.prepared bind.statement) (FrontendMessage.bind bind)
        (λ canon. FrontendMessage.bind (record bind { statement = canon })) c s
  rewrite_outbound (FrontendMessage.describe d) c s = rewrite_describe d c s
  rewrite_outbound (FrontendMessage.close close) c s = (
    c,
    record s { statements = note_portal_close s.statements },
    forwards (FrontendMessage.close close),
  )
  rewrite_outbound other c s = (c, s, forwards other)

track : Statement → Server → Server
track (Statement.set SetScope.session parameter value) s = record s {
  dirty_vars = Sets.insert parameter s.dirty_vars;
}
track (Statement.reset ResetTarget.all) s = record s { dirty_vars = [] }
track (Statement.reset (ResetTarget.parameter name)) s = record s {
  dirty_vars = Sets.remove name s.dirty_vars;
}
track (Statement.discard DiscardTarget.all) s = record s {
  statements = discard_all s.statements;
  dirty_vars = [];
}
track _ s = s

module _ (lex : Text → List Token) where
  unfoldable pub track_set_reset : FrontendMessage → Server → Server
  unfolding track
  track_set_reset (FrontendMessage.query query) s = track (parse_statement (lex query)) s
  track_set_reset _ s = s
