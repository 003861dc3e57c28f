-- ===== src/Proxy/Tests.antt =====
-- Tests of the proxy loop on a small session.
use halephant.Config.Types.{multiplex}
use halephant.Prelude.{
  ℕ, ◌≡◌, refl, true, false, List, [], ◌∷◌, some, Text, codes, text_dec, ℕ_discrete,
}
use halephant.Proto.Backend.{BackendMessage}
use halephant.Proto.Frontend.{statement, FrontendMessage}
use halephant.Proto.Types.{idle, in_transaction}
use halephant.Proxy.Idle.{Happening, event, granted}
use halephant.Proxy.Messages.{Front}
use halephant.Prelude.Map
use halephant.Proxy.Outbound.{Server}
use halephant.Statements.Client
use halephant.Proxy.Transaction.{
  Release, Next, release, Active, Event, client_sends, client_gone, server_sends,
  is_read_write_override_msg, on_client, reject_read_write, forward_until_idle,
}
use halephant.Proxy.Outbound.Follows.{Follows}
use halephant.Statements.Replies.Link.Names
use halephant.Proxy.Transaction.Run.{forward_until_idle-IsAtRest}
use halephant.Sql.Tokens.{Token, word}
use halephant.Statements.Replies

-- A lexer to which every text but the empty one is `RESET ALL`.
abbrev lex_reset : Text → List Token
lex_reset [] = []
lex_reset (_ ∷ _) = word (codes "reset") ∷ word (codes "all") ∷ []

abbrev no_hash : List ℕ → List ℕ
no_hash bytes = bytes

abbrev newcomer : Front
newcomer = record {
  prepared = record { names = [] };
  store = record { statements = [] };
  channels = some [];
  sent = [];
}

abbrev fresh : Server
fresh = record { statements = Replies.new 1; dirty_vars = []; last_tx_status = idle; sent = [] }

abbrev busy : Active
busy = record {
  front = newcomer;
  server = fresh;
  pinned = false;
  last_server_status = in_transaction;
}

abbrev reset_all : FrontendMessage
reset_all = FrontendMessage.query (codes "RESET ALL")

-- A query that is let through, one that is not, and the end of the transaction.
abbrev events : List Event
events =
    client_sends (FrontendMessage.query [])
    ∷ client_sends reset_all
    ∷ server_sends (BackendMessage.ready_for_query idle)
    ∷ []

abbrev after_events : Active
after_events = (forward_until_idle lex_reset no_hash multiplex true events busy).0

ends_idle :
    forward_until_idle lex_reset no_hash multiplex true events busy
    ≡ (after_events, release Release.idle)
unfolding forward_until_idle halephant.Proxy.Transaction.on_event on_client
    halephant.Proxy.Transaction.listen_intercept halephant.Proxy.Intercept.handle_listen_intercept
    halephant.Sql.Parser.parse_statement is_read_write_override_msg
    halephant.Sql.Ast.is_read_write_override halephant.Proxy.Transaction.classify
    halephant.Proxy.Intercept.handle_close_intercept
    halephant.Proxy.Intercept.handle_deallocate_intercept halephant.Proxy.Transaction.pass_on
    halephant.Proxy.Outbound.rewrite_outbound text_dec ℕ_discrete
    halephant.Proxy.Transaction.on_server halephant.Proxy.Transaction.pinned_after
ends_idle = refl

forward_until_idle-IsAtRest_example :
    (after_events.last_server_status ≡ idle)
    × (after_events.server.last_tx_status ≡ idle)
    × (after_events.pinned ≡ false)
forward_until_idle-IsAtRest_example =
    forward_until_idle-IsAtRest lex_reset no_hash multiplex true events busy after_events ends_idle

-- The first `Parse` of a session, for a statement that the connection does not have.
abbrev first_parse : FrontendMessage
first_parse = FrontendMessage.parse (record { name = codes "s"; query = []; param_types = [] })

-- A query that is rejected, a `Parse` that is sent, and its statement used again on the next connection.
abbrev happenings : List Happening
happenings =
    event (client_sends reset_all)
    ∷ event (client_sends first_parse)
    ∷ granted fresh
    ∷ event (server_sends (BackendMessage.ready_for_query idle))
    ∷ event
        (client_sends (FrontendMessage.describe (record { kind = statement; name = codes "s" })))
    ∷ granted fresh
    ∷ event client_gone
    ∷ []

abbrev IsEmpty : Text → Type 0
IsEmpty query = query ≡ []
