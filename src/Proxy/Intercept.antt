-- ===== src/Proxy/Intercept.antt =====
-- crates/halephant-core/src/proxy/intercept.rs: the messages that are answered without the server.
-- `true` is `Some(true)`: the message is consumed. The SQL lexer stands on a parser library, so it is
-- a parameter. Of the listener, only the client's own channels are kept.
use halephant.Prelude.Sets
use halephant.Prelude.{Bool, true, false, List, [], Option, none, some, Text, text_eq, codes}
use halephant.Proto.Backend.{close_complete}
use halephant.Proto.Frontend.{TargetKind, FrontendMessage}
use halephant.Proto.Types.{TransactionStatus}
use halephant.Proxy.Messages.{Front, send, send_synthetic_ok}
use halephant.Sql.Ast.{Statement, DeallocateTarget, UnlistenTarget}
use halephant.Sql.Parser.{parse_statement}
use halephant.Sql.Tokens.{Token}
use halephant.Statements.Client
use halephant.Statements.Client.{ClientPrepared}

-- `client_prepared.remove(name, &mut store)` and `release_all`.
unfoldable pub drop_name : Text → Front → Front
drop_name name c =
    let (prepared, store) = Client.remove c.prepared name c.store in
    record c { prepared = prepared; store = store }

unfoldable pub drop_all : Front → Front
drop_all c =
    let (prepared, store) = Client.release_all c.prepared c.store in
    record c { prepared = prepared; store = store }

unfoldable pub close_target : TargetKind → Text → Front → Front × Bool
unfolding drop_name send
close_target TargetKind.statement name c = (send close_complete (drop_name name c), true)
close_target TargetKind.portal name c = (c, false)

unfoldable pub handle_close_intercept : FrontendMessage → Front → Front × Bool
unfolding close_target
handle_close_intercept (FrontendMessage.close close) c = close_target close.kind close.name c
handle_close_intercept _ c = (c, false)

unfoldable pub deallocate_names : DeallocateTarget → Front → Front
unfolding drop_name drop_all
deallocate_names (DeallocateTarget.name name) c = drop_name name c
deallocate_names DeallocateTarget.all c = drop_all c

unfoldable pub intercept_deallocate : Statement → TransactionStatus → Front → Front × Bool
unfolding deallocate_names send_synthetic_ok
intercept_deallocate (Statement.deallocate target) status c =
    (send_synthetic_ok (codes "DEALLOCATE") status (deallocate_names target c), true)
intercept_deallocate _ status c = (c, false)

-- `notifs.listen`, `unlisten` and `unlisten_all`.
unlisten_channels : UnlistenTarget → List Text → List Text
unlisten_channels UnlistenTarget.star channels = []
unlisten_channels (UnlistenTarget.channel name) channels = Sets.remove name channels

unfoldable pub intercept_listen : Statement → TransactionStatus → List Text → Front → Front × Bool
unfolding unlisten_channels send_synthetic_ok
intercept_listen (Statement.listen channel) status channels c = (
  send_synthetic_ok (codes "LISTEN") status
      (record c { channels = some (Sets.insert channel channels) }),
  true,
)
intercept_listen (Statement.unlisten target) status channels c = (
  send_synthetic_ok (codes "UNLISTEN") status
      (record c { channels = some (unlisten_channels target channels) }),
  true,
)
intercept_listen _ status channels c = (c, false)

-- Without a subscription to notifications nothing is intercepted.
unfoldable pub subscribed :
    Statement → TransactionStatus → Front → Option (List Text) → Front × Bool
unfolding intercept_listen
subscribed s status c none = (c, false)
subscribed s status c (some channels) = intercept_listen s status channels c

module _ (lex : Text → List Token) where
  unfoldable pub handle_deallocate_intercept :
      FrontendMessage → TransactionStatus → Front → Front × Bool
  unfolding intercept_deallocate
  handle_deallocate_intercept (FrontendMessage.query query) status c =
      intercept_deallocate (parse_statement (lex query)) status c
  handle_deallocate_intercept _ status c = (c, false)

  unfoldable pub handle_listen_intercept :
      FrontendMessage → TransactionStatus → Front → Front × Bool
  unfolding subscribed
  handle_listen_intercept (FrontendMessage.query query) status c =
      subscribed (parse_statement (lex query)) status c c.channels
  handle_listen_intercept _ status c = (c, false)
