-- ===== src/Proxy/Transaction.antt =====
-- The forwarding loop of crates/halephant-core/src/proxy/transaction.rs while a server connection is
-- held. `select!` takes one event at a time, so a run is a list of events. Spans are left out.
pub mod ReadOnly
pub mod Recorded
pub mod Run
use halephant.Config.Types.{ListenMode, pin, multiplex}
use halephant.Prelude.{
  ℕ, Bool, true, false, not, ◌&&◌, List, [], ◌∷◌, Option, none, some, Text, codes, if◌then◌else◌,
}
use halephant.Proto.Backend.{
  BackendMessage, NoticeFields, parse_complete, close_complete, ready_for_query, error_response,
}
use halephant.Proto.Frontend.{Parse, FrontendMessage}
use halephant.Proto.Types.{TransactionStatus, in_transaction}
use halephant.Proxy.Intercept.{
  handle_close_intercept, handle_deallocate_intercept, handle_listen_intercept,
}
use halephant.Proxy.Messages.{Front, send, send_error, send_fatal}
use halephant.Proxy.Outbound.{
  Server, Rewritten, forwards, consumed, bails, send_server, rewrite_outbound, track_set_reset,
}
use halephant.Sql.Ast.{Statement, UnlistenTarget, is_read_write_override}
use halephant.Sql.Parser.{parse_statement}
use halephant.Sql.Tokens.{Token}
use halephant.Statements.Replies
use halephant.Statements.Replies.{
  Reply, next_parse_reply, next_close_reply, roll_back_after_error, reset_pending,
}

pub data Release : Type 0 where
  idle client_done : Release

-- Go on with the loop, return, or fail.
pub data Next : Type 0 where
  go_on : Next
  release : Release → Next
  fails : Next

-- A session that holds a server connection.
pub record Active : Type 0 where
  pub front : Front
  pub server : Server
  pub pinned : Bool
  pub last_server_status : TransactionStatus

pub data Event : Type 0 where
  client_sends : FrontendMessage → Event
  client_gone : Event
  server_sends : BackendMessage → Event
  server_gone : Event
  notified : BackendMessage → Event

-- `CloseComplete` and `ParseComplete`, by what was recorded when their message went out.
unfoldable pub forward_reply : Reply → BackendMessage → Front → Front
unfolding send
forward_reply Reply.forward m c = send m c
forward_reply Reply.suppress m c = c

unfoldable pub is_idle : TransactionStatus → Bool
is_idle TransactionStatus.idle = true
is_idle _ = false

unfoldable pub on_ready : TransactionStatus → Active → Active × Next
unfolding send is_idle
on_ready status a =
    let after : Active = record a {
      front = send (ready_for_query status) a.front;
      server = record a.server { last_tx_status = status };
      last_server_status = status;
    } in
    (after, if is_idle status && not a.pinned then release Release.idle else go_on)

unfoldable pub on_server : BackendMessage → Active → Active × Next
unfolding on_ready forward_reply send
on_server (BackendMessage.ready_for_query status) a = on_ready status a
on_server (BackendMessage.error_response fields) a = (
  record a {
    server = record a.server { statements = roll_back_after_error a.server.statements };
    front = send (error_response fields) a.front;
  },
  go_on,
)
on_server BackendMessage.parse_complete a =
    let (statements, reply) = next_parse_reply a.server.statements in
    (
      record a {
        server = record a.server { statements = statements };
        front = forward_reply reply parse_complete a.front;
      },
      go_on,
    )
on_server BackendMessage.close_complete a =
    let (statements, reply) = next_close_reply a.server.statements in
    (
      record a {
        server = record a.server { statements = statements };
        front = forward_reply reply close_complete a.front;
      },
      go_on,
    )
on_server other a = (record a { front = send other a.front }, go_on)

module _ (lex : Text → List Token) where
  unfoldable pub classify : FrontendMessage → Statement
  classify (FrontendMessage.query q) = parse_statement (lex q)
  classify (FrontendMessage.parse p) = parse_statement (lex p.query)
  classify _ = Statement.other

  unfoldable pub is_read_write_override_msg : FrontendMessage → Bool
  is_read_write_override_msg m = is_read_write_override (classify m)

  begins_read_only : Statement → Bool
  begins_read_only (Statement.begin options) = elim options.read_only [ some b ↦ b | none ↦ false ]
  begins_read_only _ = false

  unfoldable pub is_read_only_query : FrontendMessage → Bool
  unfolding begins_read_only
  is_read_only_query m = begins_read_only (classify m)

-- SQLSTATE 25006.
unfoldable pub reject_read_write : TransactionStatus → Front → Front
reject_read_write =
    send_error (codes "25006")
      (codes "cannot switch to read-write mode: connection is routed to a read replica")

pin_by : Statement → Bool → Bool
pin_by (Statement.listen _) pinned = true
pin_by (Statement.unlisten UnlistenTarget.star) pinned = false
pin_by _ pinned = pinned

-- `LISTEN` pins the connection in pin mode, and `UNLISTEN *` frees it.
unfoldable pub pinned_after : ListenMode → Statement → Bool → Bool
unfolding pin_by
pinned_after ListenMode.pin statement pinned = pin_by statement pinned
pinned_after ListenMode.multiplex statement pinned = pinned

-- What the rewriting left, and the message sent on.
unfoldable pub deliver : Active → Front × Server × Rewritten → Active × Next
unfolding send_server
deliver a (c, s, forwards m) = (record a { front = c; server = send_server m s }, go_on)
deliver a (c, s, consumed) = (record a { front = c; server = s }, go_on)
deliver a (c, s, bails) = (record a { front = c; server = s }, fails)

-- The rest of a run, unless the step ended it.
continued : Next → Active → Active × Next → Active × Next
continued go_on b later = later
continued (release r) b later = (b, release r)
continued fails b later = (b, fails)

module _ (lex : Text → List Token) (sha256 : List ℕ → List ℕ) (mode : ListenMode)
    (read_only : Bool) where
  -- The message goes on to the server, rewritten.
  unfoldable pub pass_on : FrontendMessage → Active → Active × Next
  unfolding deliver
  pass_on m a = deliver a (rewrite_outbound sha256 m a.front (track_set_reset lex m a.server))

  -- `listen_mode == ListenMode::Multiplex && ...`.
  unfoldable pub listen_intercept : FrontendMessage → TransactionStatus → Front → Front × Bool
  listen_intercept m status c = elim mode [
    | pin ↦ (c, false)
    | multiplex ↦ handle_listen_intercept lex m status c
  ]

  deallocate_or_pass : FrontendMessage → Active → Front × Bool → Active × Next
  deallocate_or_pass m a (c, true) = (record a { front = c }, go_on)
  deallocate_or_pass m a (c, false) =
      pass_on m (record a { front = c; pinned = pinned_after mode (classify lex m) a.pinned })

  close_or_later : FrontendMessage → Active → Front × Bool → Active × Next
  unfolding deallocate_or_pass
  close_or_later m a (c, true) = (record a { front = c }, go_on)
  close_or_later m a (c, false) =
      deallocate_or_pass m a (handle_deallocate_intercept lex m a.last_server_status c)

  unfoldable pub listen_or_later : FrontendMessage → Active → Front × Bool → Active × Next
  unfolding close_or_later
  listen_or_later m a (c, true) = (record a { front = c }, go_on)
  listen_or_later m a (c, false) =
      if read_only && is_read_write_override_msg lex m
      then (record a { front = reject_read_write in_transaction c }, go_on)
      else close_or_later m a (handle_close_intercept m c)

  unfoldable pub on_client : FrontendMessage → Active → Active × Next
  unfolding listen_or_later
  on_client FrontendMessage.terminate a = (a, release Release.client_done)
  on_client m a = listen_or_later m a (listen_intercept m a.last_server_status a.front)

  unfoldable pub on_event : Event → Active → Active × Next
  on_event (client_sends m) a = on_client m a
  on_event client_gone a = (a, release Release.client_done)
  on_event (server_sends m) a = on_server m a
  on_event server_gone a = (
    record a {
      front = send_fatal (codes "08006") (codes "upstream server closed unexpectedly") a.front;
    },
    fails,
  )
  on_event (notified m) a = (record a { front = send m a.front }, go_on)

  -- The loop over the events, up to the first that ends it.
  unfoldable pub forward_until_idle : List Event → Active → Active × Next
  unfolding continued
  forward_until_idle [] a = (a, go_on)
  forward_until_idle (e ∷ es) a =
      let (b, next) = on_event e a in let later = forward_until_idle es b in continued next b later

  is_listen : Statement → Bool
  is_listen (Statement.listen _) = true
  is_listen _ = false

  -- The first message of a transaction, on the connection that was checked out.
  unfoldable pub begin_transaction : FrontendMessage → Front → Server → Active × Next
  unfolding is_listen
  begin_transaction m c s = pass_on m (record {
    front = c;
    server = record s { statements = reset_pending s.statements };
    pinned = if is_listen (classify lex m) then pinned_after mode (classify lex m) false else false;
    last_server_status = in_transaction;
  })
